-- ===== src/Authorization/Access/Laws.antt =====
-- The checks against direct look-ups of the row and of the member.
use mathlib.Core.Path.{subst}
use rag_stack_monorepo.Exec.{after_gets, HttpError, require, ok}
use rag_stack_monorepo.Prisma.Laws.{find_first_sound}
use rag_stack_monorepo.Authorization.Access.{assert_knowledge_base_read}
use rag_stack_monorepo.Prelude.{
  refl, sym, ◌∙◌, ◌≡◌, ◌⊎◌, false, inl, inr, Bool, is_some, ◌≡◌, ◌≢◌, String, List, Option, none,
  some, true, ◌&&◌, ◌||◌, eq_iff, arith, if◌then◌else◌, Option-cases, inl, inr, pair_eq, string_eq,
  false,
}
use rag_stack_monorepo.Prisma.{Prisma}
use rag_stack_monorepo.Prisma.Laws.{find_first_by_key}
use rag_stack_monorepo.Exec.{Result, ok, err, not_found, forbidden, ◌>>=◌}
use rag_stack_monorepo.Schema.{Db, KnowledgeBase, KbRole, KbMember}
use rag_stack_monorepo.Authorization.Roles.{AuthenticatedUser, is_admin}
use rag_stack_monorepo.Authorization.Where.{is_active, kb_matches, build_knowledge_base_read_where}
use rag_stack_monorepo.Authorization.Access.{
  KbAccess, includes, unordered, assert_knowledge_base_role,
}

-- What a check answers, from the row with the key and the user's own membership.
pub decide_access :
    AuthenticatedUser
    → List KbRole
    → String
    → Option KnowledgeBase
    → Option KbMember
    → Result KbAccess
decide_access u allowed kb_id none member = err (not_found "Knowledge base not found")
decide_access u allowed kb_id (some kb) member =
    if is_active kb.status
    then (if is_admin (some u)
        then ok (record { kb_id = kb_id; kb = kb; membership_role = none })
        else elim member [
          | none ↦ err (not_found "Knowledge base not found")
          | some m ↦
              if includes allowed m.role
              then ok (record { kb_id = kb_id; kb = kb; membership_role = some m.role })
              else err (forbidden "Knowledge base access denied")
        ])
    else err (not_found "Knowledge base not found")

module _ (p : Prisma) (u : AuthenticatedUser) (kb_id : String) (given : kb_id ≢ "") where
  fixed :
      (db : Db p) (k : String) (r : KnowledgeBase)
      → kb_matches p db (build_knowledge_base_read_where u (some kb_id)) k r ≡ true
      → k ≡ kb_id
  unfolding kb_matches build_knowledge_base_read_where
  fixed db k r h = ground (arith, eq_iff kb_id "", eq_iff kb_id k)

  matches_own :
      (db : Db p) (r : KnowledgeBase)
      → kb_matches p db (build_knowledge_base_read_where u (some kb_id)) kb_id r ≡ (
          is_active r.status
          && (is_admin (some u) || is_some (p.find_unique (kb_id, u.id) db.members)))
  unfolding kb_matches build_knowledge_base_read_where
  matches_own db r = ground (arith, eq_iff kb_id "", eq_iff kb_id kb_id)

  -- For a knowledge base id that is not empty, the role check answers what the row with that id
  -- and the user's own membership say: not found if there is no row, if it is archived, or if the
  -- user is no administrator and no member; forbidden if the member's role is not allowed; else
  -- the row, with the member's role, or with none for an administrator. The state is unchanged.
  pub assert_knowledge_base_role_lem :
      (allowed : List KbRole) (db : Db p)
      → assert_knowledge_base_role p u kb_id allowed db ≡ (
        decide_access u allowed kb_id
            (p.find_unique kb_id db.kbs)
            (p.find_unique (kb_id, u.id) db.members),
        db,
      )
  unfolding assert_knowledge_base_role decide_access ◌>>=◌
  assert_knowledge_base_role_lem allowed db =
      rw (find_first_by_key p (unordered p) _ db.kbs kb_id (fixed db))
        (elim (Option-cases (p.find_unique kb_id db.kbs)) [
          | inl n ↦ rw n
          | inr (kb, f) ↦ rw f (rw (matches_own db kb) (ground arith))
        ])

  -- The row of the knowledge base is stored and active, and the user is an administrator or a member.
  pub assert_knowledge_base_read_lem :
      (db db' : Db p) (found : String × KnowledgeBase)
      → assert_knowledge_base_read p u kb_id db ≡ (ok found, db')
      → (found.0 ≡ kb_id)
        × (((p.find_unique kb_id db.kbs ≡ some found.1) × (is_active found.1.status ≡ true))
            × ((is_admin (some u) ≡ true)
                ⊎ (is_some (p.find_unique (kb_id, u.id) db.members) ≡ true)))
  unfolding assert_knowledge_base_read
  assert_knowledge_base_read_lem db db' (k, kb) h = after_gets _ _ db h λ row g k1.
      let (stored, good) =
        find_first_sound p (unordered p)
          (kb_matches p db (build_knowledge_base_read_where u (some kb_id))) db.kbs k kb
          (g ∙ required _ db row k1) in
      let named = fixed db k kb good in
      let own : kb_matches p db (build_knowledge_base_read_where u (some kb_id)) kb_id kb ≡ true =
        subst (λ j. kb_matches p db (build_knowledge_base_read_where u (some kb_id)) j kb ≡ true)
          named good in
      let facts = sym (matches_own db kb) ∙ own in
      (
        named,
        (
          (subst (λ j. p.find_unique j db.kbs ≡ some kb) named stored, ground (arith, facts)),
          both _ _ _ facts,
        ),
      )
    where
      required :
          {S A : Type 0} (e : HttpError) {a : A} (s : S) {t : S} (o : Option A)
          → require e o s ≡ (ok a, t)
          → o ≡ some a
      required e s none q = absurd (ground arith)
      required e s (some b) q = ground arith

      both : (a b c : Bool) → (a && (b || c)) ≡ true → (b ≡ true) ⊎ (c ≡ true)
      both a true c q = inl refl
      both a false true q = inr refl
      both a false false q = absurd (ground arith)

  -- Whoever is neither an administrator nor a member cannot tell a knowledge base from a missing
  -- one: in any two states, of which one has no row with the id and the other no membership of the
  -- user, the role check has the same answer.
  pub outsider_sees_nothing :
      (allowed : List KbRole) (db missing : Db p)
      → is_admin (some u) ≡ false
      → p.find_unique (kb_id, u.id) db.members ≡ none
      → p.find_unique kb_id missing.kbs ≡ none
      → (assert_knowledge_base_role p u kb_id allowed db).0
        ≡ (assert_knowledge_base_role p u kb_id allowed missing).0
  unfolding decide_access
  outsider_sees_nothing allowed db missing plain outside gone =
      rw (assert_knowledge_base_role_lem allowed db, assert_knowledge_base_role_lem allowed missing)
        (ground (arith, plain, outside, gone))
