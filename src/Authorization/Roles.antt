-- ===== src/Authorization/Roles.antt =====
-- System roles and role checks of AuthorizationService, and the guard in common/guards.
use mathlib.Core.Path.{subst}
use rag_stack_monorepo.Prelude.{
  refl, inl, inr, sym, ap, ◌∙◌, Bool-cases, Option-cases, ℕ, ◌≡◌, ◌↔◌, ◌⊎◌, Bool, true, false,
  Option, none, some, List, [], ◌∷◌, String, ◌==◌, eq_iff, if◌then◌else◌, any, arith, In,
}
use rag_stack_monorepo.Exec.{Result, ok, err, forbidden}
use rag_stack_monorepo.Schema.{SystemRole, super_admin, operator, KbRole}

pub record Role : Type 0 where
  pub name : Option String

pub record UserRole : Type 0 where
  pub role : Option Role

pub record AuthenticatedUser : Type 0 where
  pub id : String
  pub email : Option String
  pub user_role : Option (List UserRole)

-- The value of each member of Prisma's string enum.
unfoldable pub role_name : SystemRole → String
role_name SystemRole.super_admin = "SUPER_ADMIN"
role_name SystemRole.operator = "OPERATOR"
role_name SystemRole.system = "SYSTEM"
role_name SystemRole.user = "USER"

-- `userRole.role?.name`, kept if it is a string
names_of : List UserRole → List String
names_of [] = []
names_of (u ∷ us) =
    let rest = names_of us in
    elim u.role [ none ↦ rest | some r ↦ elim r.name [ none ↦ rest | some n ↦ n ∷ rest ] ]

roles_of : Option (List UserRole) → List String
roles_of none = []
roles_of (some us) = names_of us

-- `user` may be null or undefined
unfoldable pub list_system_roles : Option AuthenticatedUser → List String
unfolding names_of roles_of
list_system_roles none = []
list_system_roles (some u) = roles_of u.user_role

contains : String → List String → Bool
contains n [] = false
contains n (m ∷ ms) = if m == n then true else contains n ms

unfoldable pub has_any_system_role : Option AuthenticatedUser → List SystemRole → Bool
unfolding contains role_name list_system_roles
has_any_system_role u [] = true
has_any_system_role u (r ∷ rs) =
    any (λ role. contains (role_name role) (list_system_roles u)) (r ∷ rs)

unfoldable pub is_admin : Option AuthenticatedUser → Bool
unfolding has_any_system_role
is_admin u = has_any_system_role u (super_admin ∷ [])

unfoldable pub is_operator : Option AuthenticatedUser → Bool
unfolding has_any_system_role
is_operator u = has_any_system_role u (super_admin ∷ operator ∷ [])

unfoldable pub assert_global_role :
    Option AuthenticatedUser → List SystemRole → String → Result Unit
unfolding has_any_system_role
assert_global_role u allowed message =
    if has_any_system_role u allowed then ok tt else err (forbidden message)

unfoldable pub assert_ops_access : Option AuthenticatedUser → Result Unit
unfolding assert_global_role
assert_ops_access u = assert_global_role u (super_admin ∷ operator ∷ []) "Operator access required"

-- `canActivate` of RolesGuard: the roles that a route is annotated with, if any
unfoldable pub can_activate : Option (List SystemRole) → Option AuthenticatedUser → Bool
unfolding has_any_system_role
can_activate none u = true
can_activate (some required) u = has_any_system_role u required

-- KB_ROLE_PRIORITY
unfoldable pub kb_role_priority : KbRole → ℕ
kb_role_priority KbRole.viewer = 1
kb_role_priority KbRole.editor = 2
kb_role_priority KbRole.owner = 3

contains_iff : (n : String) (ms : List String) → (contains n ms ≡ true) ↔ In n ms
unfolding contains
contains_iff n [] = ground arith
contains_iff n (m ∷ ms) = ground (arith, contains_iff n ms, eq_iff m n)

-- One of the assignments is of a role of that name.
abbrev pub Assigned : List UserRole → String → Type 0
Assigned us name =
    (a : UserRole) × (In a us × ((role : Role) × ((a.role ≡ some role) × (role.name ≡ some name))))

-- The user is there, with assignments, one of which is of a role of that name.
abbrev pub HasRole : Option AuthenticatedUser → String → Type 0
HasRole u name =
    (user : AuthenticatedUser) × ((u ≡ some user)
      × ((us : List UserRole) × ((user.user_role ≡ some us) × Assigned us name)))

-- The user has one of the roles.
abbrev pub Holds : Option AuthenticatedUser → List SystemRole → Type 0
Holds u [] = ⊥
Holds u (r ∷ rs) = HasRole u (role_name r) ⊎ Holds u rs

ahead :
    (a : UserRole) (us : List UserRole) (name : String) → Assigned us name → Assigned (a ∷ us) name
ahead a us name (b, (m, rest)) = (b, (inr m, rest))

names_of_step :
    (a : UserRole) (us : List UserRole) (name : String)
    → In name (names_of us) ↔ Assigned us name
    → In name (names_of (a ∷ us)) ↔ Assigned (a ∷ us) name
unfolding names_of
names_of_step a us name next = (to (Option-cases a.role), from)
  where
    named :
        (role : Role)
        → a.role ≡ some role
        → (role.name ≡ none) ⊎ ((n : String) × (role.name ≡ some n))
        → In name (names_of (a ∷ us))
        → Assigned (a ∷ us) name
    named role f (inl n) m = ahead a us name (next.0 (rw (names_of, f, n) at m))
    named role f (inr (s, n)) m = elim (rw (names_of, f, n) at m) [
      | inl e ↦ (a, (inl refl, (role, (f, n ∙ ap some (sym e)))))
      | inr q ↦ ahead a us name (next.0 q)
    ]

    to :
        (a.role ≡ none) ⊎ ((role : Role) × (a.role ≡ some role))
        → In name (names_of (a ∷ us))
        → Assigned (a ∷ us) name
    to (inl n) m = ahead a us name (next.0 (rw (names_of, n) at m))
    to (inr (role, f)) m = named role f (Option-cases role.name) m

    later : In name (names_of us) → In name (names_of (a ∷ us))
    later m = elim (Option-cases a.role) [
      | inl n ↦ rw (names_of, n) m
      | inr (role, f) ↦ elim (Option-cases role.name) [
        | inl n ↦ rw (names_of, f, n) m
        | inr (s, n) ↦ rw (names_of, f, n) (inr m)
      ]
    ]

    from : Assigned (a ∷ us) name → In name (names_of (a ∷ us))
    from (b, (inl e, (role, (f, n)))) =
        rw (names_of, ap (λ (x : UserRole). x.role) (sym e) ∙ f, n) (inl refl)
    from (b, (inr m, rest)) = later (next.1 (b, (m, rest)))

names_of_iff : (us : List UserRole) (name : String) → In name (names_of us) ↔ Assigned us name
unfolding names_of
names_of_iff [] name = (λ m. absurd m, λ h. absurd h.1.0)
names_of_iff (a ∷ us) name = names_of_step a us name (names_of_iff us name)

list_system_roles_iff :
    (u : Option AuthenticatedUser) (name : String) → In name (list_system_roles u) ↔ HasRole u name
unfolding list_system_roles roles_of
list_system_roles_iff none name = (λ m. absurd m, λ h. absurd (ground (arith, h.1.0)))
list_system_roles_iff (some user) name = elim (Option-cases user.user_role) [
  | inl n ↦ (
    λ m. absurd (rw (list_system_roles, roles_of, n) at m),
    λ h.
        let same = some_user h.1.0 in
        absurd (ground (arith, n, ap (λ (x : AuthenticatedUser). x.user_role) same, h.1.1.1.0)),
  )
  | inr (us, f) ↦ (
    λ m. (
      user,
      (refl, (us, (f, (names_of_iff us name).0 (rw (list_system_roles, roles_of, f) at m)))),
    ),
    λ h.
        let same = some_user h.1.0 in
        let lists : us ≡ h.1.1.0 =
          some_list (sym f ∙ (ap (λ (x : AuthenticatedUser). x.user_role) same ∙ h.1.1.1.0)) in
        rw (list_system_roles, roles_of, f)
          ((names_of_iff us name).1 (subst (λ l. Assigned l name) (sym lists) h.1.1.1.1)),
  )
]
  where
    some_user : {a b : AuthenticatedUser} → some a ≡ some b → a ≡ b
    some_user q = ground arith

    some_list : {a b : List UserRole} → some a ≡ some b → a ≡ b
    some_list q = ground arith

any_iff :
    (u : Option AuthenticatedUser) (rs : List SystemRole)
    → (any (λ role. contains (role_name role) (list_system_roles u)) rs ≡ true) ↔ Holds u rs
any_iff u [] = ground arith
any_iff u (r ∷ rs) = elim (Bool-cases (contains (role_name r) (list_system_roles u))) [
  | inl t ↦ (
    λ _. inl (
        (list_system_roles_iff u (role_name r)).0
          ((contains_iff (role_name r) (list_system_roles u)).0 t)),
    λ _. rw t refl,
  )
  | inr f ↦ (
    λ h. inr ((any_iff u rs).0 (rw f at h)),
    λ h. elim h [
      | inl own ↦ absurd (
          ground (
            arith,
            f,
            (contains_iff (role_name r) (list_system_roles u)).1
                ((list_system_roles_iff u (role_name r)).1 own),
          ))
      | inr rest ↦ rw f ((any_iff u rs).1 rest)
    ],
  )
]

-- A role check that names at least one role passes exactly if the user is there and one of the
-- user's assignments is of a role that has the name of one of them.
pub has_any_system_role_iff :
    (u : Option AuthenticatedUser) (r : SystemRole) (rs : List SystemRole)
    → (has_any_system_role u (r ∷ rs) ≡ true) ↔ Holds u (r ∷ rs)
unfolding has_any_system_role
has_any_system_role_iff u r rs = any_iff u (r ∷ rs)

-- Every administrator passes the operators' check.
pub is_admin-is_operator : (u : Option AuthenticatedUser) → is_admin u ≡ true → is_operator u ≡ true
unfolding is_admin is_operator
is_admin-is_operator u h = ground arith
