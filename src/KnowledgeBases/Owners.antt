-- ===== src/KnowledgeBases/Owners.antt =====
-- The owners of the knowledge bases, which `ensureOwnerMutationAllowed` of
-- services/api/src/knowledge-bases/knowledge-bases.service.ts watches over.
use rag_stack_monorepo.Prelude.{
  ◌≡◌, refl, true, false, Option, none, some, inl, inr, List, String, eq_iff, pair_eq, arith,
  Bool-cases, ◌≢◌, ◌∙◌, ap, sym, Option-cases,
}
use rag_stack_monorepo.Exec.{ok, ◌>>=◌}
use rag_stack_monorepo.Exec.Keeps.{Keeps-read}
use rag_stack_monorepo.Prisma.{Prisma}
use rag_stack_monorepo.Prisma.Laws.{count_two}
use rag_stack_monorepo.Schema.{Db, KbMember, KbRole, role_eq}
use rag_stack_monorepo.Authorization.Roles.{AuthenticatedUser}
use rag_stack_monorepo.KnowledgeBases.{
  is_owner_of, check_owner_mutation, ensure_owner_mutation_allowed, ensure_target_user_exists,
  add_member, remove_member, assert_kb_access, stays_owner, upsert_member, delete_member,
}
use mathlib.Core.Path.{subst, sym}

module _ (p : Prisma) where
  -- Some user is an owner of the knowledge base.
  abbrev pub HasOwner : String → p.Table (String × String) KbMember → Type 0
  HasOwner kb_id members =
      (user_id : String) × (m : KbMember) × (p.find_unique (kb_id, user_id) members ≡ some m)
      × (role_eq m.role KbRole.owner ≡ true)

  -- Every one of the given knowledge bases has an owner.
  abbrev pub AllOwned : (String → Type 0) → Db p → Type 0
  AllOwned Known db = (kb_id : String) → Known kb_id → HasOwner kb_id db.members

  other_owner :
      (kb_id target : String) (m : KbMember) (next : Option KbRole) (db : Db p)
      → p.find_unique (kb_id, target) db.members ≡ some m
      → role_eq m.role KbRole.owner ≡ true
      → check_owner_mutation p kb_id (some m) next db ≡ ok tt
      → stays_owner p next ≡ false
      → (j : String × String) × (r : KbMember) × (j ≢ (kb_id, target))
        × (p.find_unique j db.members ≡ some r)
        × (is_owner_of p kb_id j r ≡ true)
  unfolding check_owner_mutation
  other_owner kb_id target m next db f o c n =
      count_two p (is_owner_of p kb_id) db.members (kb_id, target) (ground arith)

  owner_from :
      (kb_id : String) (j : String × String) (r : KbMember) (t : p.Table (String × String) KbMember)
      → p.find_unique j t ≡ some r
      → is_owner_of p kb_id j r ≡ true
      → HasOwner kb_id t
  owner_from kb_id (a, b) r t f w =
      let e : a ≡ kb_id = (eq_iff a kb_id).0 (ground arith) in (b, r, rw (← e) f, ground arith)

  -- What the check lets through keeps an owner, if only the target's row is written.
  owner_kept :
      (kb_id target : String) (next : Option KbRole) (db : Db p)
      (after : p.Table (String × String) KbMember)
      → ((j : String × String)
          → j ≢ (kb_id, target)
          → p.find_unique j after ≡ p.find_unique j db.members)
      → (stays_owner p next ≡ true → HasOwner kb_id after)
      → check_owner_mutation p kb_id (p.find_unique (kb_id, target) db.members) next db ≡ ok tt
      → (kb : String) → HasOwner kb db.members
      → HasOwner kb after
  owner_kept kb_id target next db after rest stays c kb (u, m, f, o) =
      elim (Bool-cases (pair_eq.beq (kb, u) (kb_id, target))) [
        | inr apart ↦ (u, m, rest (kb, u) (λ q. cc (apart, (pair_eq.beq_iff _ _).1 q)) ∙ f, o)
        | inl same ↦
            let q = (pair_eq.beq_iff _ _).0 same in
            let f' : p.find_unique (kb_id, target) db.members ≡ some m = rw (← q) f in
            let at_kb : kb ≡ kb_id = ap (λ x. x.0) q in
            elim (Bool-cases (stays_owner p next)) [
              | inl s ↦ subst (λ k. HasOwner k after) (sym at_kb) (stays s)
              | inr n ↦
                  let (j, r, ne, fj, w) = other_owner kb_id target m next db f' o (rw f' at c) n in
                  subst (λ k. HasOwner k after) (sym at_kb)
                    (owner_from kb_id j r after (rest j ne ∙ fj) w)
            ]
      ]

  -- The check on a knowledge base leaves the state alone.
  pub access_reads :
      (kb_id : String) (u : AuthenticatedUser) (allowed : List KbRole) (db : Db p)
      → (assert_kb_access p kb_id u allowed db).1 ≡ db
  unfolding assert_kb_access ◌>>=◌
  access_reads kb_id u allowed db = ground arith

  target_reads : (user_id : String) (db : Db p) → (ensure_target_user_exists p user_id db).1 ≡ db
  unfolding ensure_target_user_exists ◌>>=◌
  target_reads user_id db = ground arith

  add_kept :
      (Known : String → Type 0) (author : AuthenticatedUser) (kb_id user_id : String)
      (role : KbRole) (db : Db p) (done : Unit)
      → (ensure_owner_mutation_allowed p kb_id user_id (some role) db).0 ≡ ok done
      → AllOwned Known db
      → AllOwned Known (upsert_member p kb_id author user_id role db).1
  unfolding ensure_owner_mutation_allowed upsert_member ◌>>=◌
  add_kept Known author kb_id user_id role db done passed owned kb known =
      owner_kept kb_id user_id (some role) db _
        (λ j ne. ground (
          arith,
          p.find_unique-put (kb_id, user_id) j (record { role = role }) db.members,
          pair_eq.beq_iff (kb_id, user_id) j,
        ))
        (λ stays. (
          user_id,
          record { role = role },
          ground (
            arith,
            p.find_unique-put (kb_id, user_id) (kb_id, user_id) (record { role = role }) db.members,
            pair_eq.beq_iff (kb_id, user_id) (kb_id, user_id),
          ),
          stays,
        ))
        passed kb (owned kb known)

  remove_kept :
      (Known : String → Type 0) (author : AuthenticatedUser) (kb_id target : String) (db : Db p)
      (done : Unit)
      → (ensure_owner_mutation_allowed p kb_id target none db).0 ≡ ok done
      → AllOwned Known db
      → AllOwned Known (delete_member p kb_id author target db).1
  unfolding ensure_owner_mutation_allowed delete_member ◌>>=◌
  remove_kept Known author kb_id target db done passed owned kb known =
      elim (Option-cases (p.find_unique (kb_id, target) db.members)) [
        | inl n ↦ rw n (owned kb known)
        | inr (m, f) ↦ rw f (
            owner_kept kb_id target none db _
              (λ j ne. ground (
                arith,
                p.find_unique-delete (kb_id, target) j db.members,
                pair_eq.beq_iff (kb_id, target) j,
              ))
              (λ stays. cc) passed kb (owned kb known))
      ]

  -- Adding a member, or changing a member's role, leaves an owner to every knowledge base that
  -- has one, whether the request succeeds or is refused.
  pub add_member-AllOwned :
      (Known : String → Type 0) (kb_id : String) (author : AuthenticatedUser) (user_id : String)
      (role : KbRole) (db : Db p)
      → AllOwned Known db
      → AllOwned Known (add_member p kb_id author user_id role db).1
  unfolding add_member
  add_member-AllOwned Known kb_id author user_id role =
      Keeps-read (AllOwned Known) _ _ (access_reads kb_id author _) λ _ s _.
        Keeps-read (AllOwned Known) _ _ (target_reads user_id)
          (λ _ s _.
            Keeps-read (AllOwned Known) (ensure_owner_mutation_allowed p kb_id user_id (some role))
              (λ _. upsert_member p kb_id author user_id role)
              (λ _. unfold ensure_owner_mutation_allowed in refl)
              (λ done s passed owned.
                add_kept Known author kb_id user_id role s done (ap (λ x. x.0) passed) owned)
              s)
          s

  -- Removing a member leaves an owner to every knowledge base that has one, whether the request
  -- succeeds or is refused.
  pub remove_member-AllOwned :
      (Known : String → Type 0) (kb_id : String) (author : AuthenticatedUser) (target : String)
      (db : Db p)
      → AllOwned Known db
      → AllOwned Known (remove_member p kb_id author target db).1
  unfolding remove_member
  remove_member-AllOwned Known kb_id author target =
      Keeps-read (AllOwned Known) _ _ (access_reads kb_id author _) λ _ s _.
        Keeps-read (AllOwned Known) _ _ (λ t. ground arith)
          (λ _ s _.
            Keeps-read (AllOwned Known) (ensure_owner_mutation_allowed p kb_id target none)
              (λ _. delete_member p kb_id author target)
              (λ _. unfold ensure_owner_mutation_allowed in refl)
              (λ done s passed owned.
                remove_kept Known author kb_id target s done (ap (λ x. x.0) passed) owned)
              s)
          s
