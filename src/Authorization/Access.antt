-- ===== src/Authorization/Access.antt =====
-- The checks on a knowledge base and on a document that the handlers make first.
pub mod Laws
use rag_stack_monorepo.Prelude.{
  ℕ, refl, Bool, true, false, Option, none, some, List, String, if◌then◌else◌, any, string_eq,
  pair_eq,
}
use rag_stack_monorepo.Exec.{Exec, Result, ok, err, not_found, forbidden, require, ◌>>=◌, gets}
use rag_stack_monorepo.Prisma.{Prisma, find_first}
use rag_stack_monorepo.Schema.{Db, KnowledgeBase, KbRole, KbMember, Document, role_eq}
use rag_stack_monorepo.Authorization.Roles.{AuthenticatedUser, is_admin}
use rag_stack_monorepo.Authorization.Where.{
  build_knowledge_base_read_where, build_document_read_where, kb_matches, document_matches,
}

-- What `assertKnowledgeBaseRole` returns: the row with its key, and the role that let the user in.
pub record KbAccess : Type 0 where
  pub kb_id : String
  pub kb : KnowledgeBase
  pub membership_role : Option KbRole

pub includes : List KbRole → KbRole → Bool
includes allowed r = any (λ a. role_eq a r) allowed

module _ (p : Prisma) where
  -- findFirst with no order: the rows are told apart by their keys alone
  abbrev pub unordered : {R : Type 0} → R → ℕ
  unordered _ = 0

  unfoldable pub assert_knowledge_base_read :
      AuthenticatedUser → String → Exec (Db p) (String × KnowledgeBase)
  unfolding build_knowledge_base_read_where kb_matches
  assert_knowledge_base_read u kb_id = do
    found ← gets (λ db.
        find_first p unordered (kb_matches p db (build_knowledge_base_read_where u (some kb_id)))
          db.kbs)
    require (not_found "Knowledge base not found") found

  -- `kb.members[0]?.role`, where the rows are those of the user: the key is (kbId, userId)
  abbrev role_of : Option KbMember → Option KbRole
  role_of none = none
  role_of (some m) = some m.role

  check_role :
      AuthenticatedUser → List KbRole → String → KnowledgeBase → Option KbRole → Result KbAccess
  unfolding includes
  check_role u allowed kb_id kb role =
      if is_admin (some u)
      then ok (record { kb_id = kb_id; kb = kb; membership_role = none })
      else elim role [
        | none ↦ err (not_found "Knowledge base not found")
        | some r ↦
            if includes allowed r
            then ok (record { kb_id = kb_id; kb = kb; membership_role = some r })
            else err (forbidden "Knowledge base access denied")
      ]

  unfoldable pub assert_knowledge_base_role :
      AuthenticatedUser → String → List KbRole → Exec (Db p) KbAccess
  unfolding build_knowledge_base_read_where kb_matches check_role
  assert_knowledge_base_role u kb_id allowed = do
    found ← gets (λ db.
        find_first p unordered (kb_matches p db (build_knowledge_base_read_where u (some kb_id)))
          db.kbs)
    kb ← require (not_found "Knowledge base not found") found
    member ← gets (λ db. p.find_unique (kb.0, u.id) db.members)
    λ db. (check_role u allowed kb.0 kb.1 (role_of member), db)

  unfoldable pub assert_document_read : AuthenticatedUser → String → Exec (Db p) (String × Document)
  unfolding build_document_read_where document_matches
  assert_document_read u document_id = do
    found ← gets (λ db.
        find_first p unordered
          (document_matches p db (build_document_read_where u (some document_id))) db.documents)
    require (not_found "Document not found") found
