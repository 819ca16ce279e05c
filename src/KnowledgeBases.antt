-- ===== src/KnowledgeBases.antt =====
-- services/api/src/knowledge-bases/knowledge-bases.service.ts: each method of the service is an
-- action on the database. `now` and the identifiers that the database makes up are arguments.
pub mod Owners
pub mod Slug
use rag_stack_monorepo.KnowledgeBases.Slug.{SlugTexts, generate_unique_slug}
use Prim.Native.String.{◌++◌}
use rag_stack_monorepo.Prelude.{
  ℕ, String, List, [], ◌∷◌, map, Option, none, some, Bool, true, false, not, ◌||◌, ◌&&◌, ◌==◌, leb,
  if◌then◌else◌, string_eq, pair_eq,
}
use rag_stack_monorepo.Schema.{
  Db, KnowledgeBase, KbMember, KbRole, KbStatus, KbVisibility, AuditLog, role_eq,
}
use rag_stack_monorepo.Authorization.Roles.{AuthenticatedUser, is_admin}
use rag_stack_monorepo.Authorization.Where.{kb_matches, build_knowledge_base_read_where}
use rag_stack_monorepo.Authorization.Access.{
  unordered, assert_knowledge_base_read, assert_knowledge_base_role,
}
use rag_stack_monorepo.Prisma.{Prisma, count}
use rag_stack_monorepo.Exec.{
  Exec, Result, ok, err, not_found, forbidden, fault, require, ◌>>=◌, ◌>>◌, pure, gets, guard,
  modify,
}

pub record CreateKnowledgeBaseDto : Type 0 where
  pub name : String
  pub description : Option String
  pub visibility : Option KbVisibility

pub record UpdateKnowledgeBaseDto : Type 0 where
  pub name : Option String
  pub description : Option String
  pub visibility : Option KbVisibility

-- A knowledge base as `findAll` and `findOne` show it. The role is "ADMIN" for an administrator.
pub record KbView : Type 0 where
  pub id : String
  pub kb : KnowledgeBase
  pub current_user_role : Option String

abbrev pub or_else {ℓ} : {A : Type ℓ} → Option A → A → A
or_else none a = a
or_else (some b) a = b

-- `data: dto` of an update: a field that is undefined keeps the column
apply_dto : UpdateKnowledgeBaseDto → KnowledgeBase → KnowledgeBase
apply_dto dto kb = record kb {
  name = or_else dto.name kb.name;
  description = elim dto.description [ none ↦ kb.description | some d ↦ some d ];
  visibility = or_else dto.visibility kb.visibility;
}

role_name : KbRole → String
role_name KbRole.owner = "OWNER"
role_name KbRole.editor = "EDITOR"
role_name KbRole.viewer = "VIEWER"

module _ (p : Prisma) where
  -- AuditService.logAction
  abbrev pub log_action : AuditLog → Exec (Db p) Unit
  log_action entry = modify (λ db. record db { audit = entry ∷ db.audit })

  -- The column values of a new knowledge base: the schema's default where the DTO has none.
  abbrev new_kb : CreateKnowledgeBaseDto → String → KnowledgeBase
  new_kb dto slug = record {
    slug = slug;
    name = dto.name;
    description = dto.description;
    status = KbStatus.active;
    visibility = or_else dto.visibility KbVisibility.private_;
    archived_at = none;
  }

  -- `kb_id` is the identifier that the database gives to the new row.
  unfoldable pub create :
      String
      → SlugTexts
      → AuthenticatedUser
      → CreateKnowledgeBaseDto
      → Exec (Db p) (String × KnowledgeBase)
  create kb_id t u dto = do
    found ← gets (generate_unique_slug p t dto.name)
    slug ← require fault found
    modify (λ db. record db {
      kbs = p.put kb_id (new_kb dto slug) db.kbs;
      members = p.put (kb_id, u.id) (record { role = KbRole.owner }) db.members;
    })
    log_action (record {
      actor_id = some u.id;
      action = "KB_CREATE";
      entity_type = "KnowledgeBase";
      entity_id = kb_id;
      kb_id = some kb_id;
    })
    pure (kb_id, new_kb dto slug)

  unfoldable pub current_user_role : AuthenticatedUser → Option KbMember → Option String
  unfolding role_name
  current_user_role u member =
      if is_admin (some u)
      then some "ADMIN"
      else elim member [ none ↦ none | some m ↦ some (role_name m.role) ]

  unfoldable pub view_of : AuthenticatedUser → Db p → String × KnowledgeBase → KbView
  unfolding current_user_role
  view_of u db (id, kb) = record {
    id = id;
    kb = kb;
    current_user_role = current_user_role u (p.find_unique (id, u.id) db.members);
  }

  -- `updated_at` is the order of the list, newest first.
  unfoldable pub find_all : (KnowledgeBase → ℕ) → AuthenticatedUser → Exec (Db p) (List KbView)
  unfolding view_of
  find_all updated_at u = gets (λ db.
      map (view_of u db)
        (p.find_many updated_at (kb_matches p db (build_knowledge_base_read_where u none)) db.kbs))

  -- The counts of members and documents are left out.
  unfoldable pub find_one : String → AuthenticatedUser → Exec (Db p) KbView
  unfolding view_of
  find_one id u = do kb ← assert_knowledge_base_read p u id; gets (λ db. view_of u db kb)

  unfoldable pub assert_kb_access :
      String → AuthenticatedUser → List KbRole → Exec (Db p) (Option KbRole)
  unfolding assert_knowledge_base_role
  assert_kb_access kb_id u allowed = do
    access ← assert_knowledge_base_role p u kb_id allowed
    pure access.membership_role

  unfoldable pub update :
      String → AuthenticatedUser → UpdateKnowledgeBaseDto → Exec (Db p) KnowledgeBase
  unfolding apply_dto
  update id u dto = do
    assert_kb_access id u (KbRole.owner ∷ KbRole.editor ∷ [])
    row ← gets (λ db. p.find_unique id db.kbs)
    kb ← require fault row
    modify (λ db. record db { kbs = p.put id (apply_dto dto kb) db.kbs })
    log_action (record {
      actor_id = some u.id;
      action = "KB_UPDATE";
      entity_type = "KnowledgeBase";
      entity_id = id;
      kb_id = some id;
    })
    pure (apply_dto dto kb)

  -- The audit entry is written before the row is archived.
  unfoldable pub remove : ℕ → String → AuthenticatedUser → Exec (Db p) KnowledgeBase
  remove now id u = do
    assert_kb_access id u (KbRole.owner ∷ [])
    log_action (record {
      actor_id = some u.id;
      action = "KB_ARCHIVE";
      entity_type = "KnowledgeBase";
      entity_id = id;
      kb_id = some id;
    })
    row ← gets (λ db. p.find_unique id db.kbs)
    kb ← require fault row
    modify (λ db. record db {
      kbs = p.put id (record kb { status = KbStatus.archived; archived_at = some now }) db.kbs;
    })
    pure (record kb { status = KbStatus.archived; archived_at = some now })

  unfoldable pub get_members :
      String → AuthenticatedUser → Exec (Db p) (List ((String × String) × KbMember))
  get_members kb_id u = do
    assert_kb_access kb_id u (KbRole.owner ∷ KbRole.editor ∷ [])
    gets (λ db. p.find_many (unordered p) (λ key m. key.0 == kb_id) db.members)

  unfoldable pub ensure_target_user_exists : String → Exec (Db p) Unit
  ensure_target_user_exists user_id = do
    row ← gets (λ db. p.find_unique user_id db.users)
    require (not_found "User not found") row
    pure tt

  abbrev pub is_owner_of : String → String × String → KbMember → Bool
  is_owner_of kb_id key m = key.0 == kb_id && role_eq m.role KbRole.owner

  -- `nextRole === OWNER`, where `null` is the member's removal
  abbrev pub stays_owner : Option KbRole → Bool
  stays_owner none = false
  stays_owner (some r) = role_eq r KbRole.owner

  unfoldable pub check_owner_mutation :
      String → Option KbMember → Option KbRole → Db p → Result Unit
  check_owner_mutation kb_id none next db = ok tt
  check_owner_mutation kb_id (some m) next db =
      if not (role_eq m.role KbRole.owner) || stays_owner next
      then ok tt
      else if leb (count p (is_owner_of kb_id) db.members) 1
      then err (forbidden "Knowledge base must retain at least one owner")
      else ok tt

  unfoldable pub ensure_owner_mutation_allowed : String → String → Option KbRole → Exec (Db p) Unit
  unfolding check_owner_mutation
  ensure_owner_mutation_allowed kb_id target next db =
      (check_owner_mutation kb_id (p.find_unique (kb_id, target) db.members) next db, db)

  -- the writes of `addMember`: the upsert and its audit entry
  unfoldable pub upsert_member : String → AuthenticatedUser → String → KbRole → Exec (Db p) KbMember
  upsert_member kb_id author user_id role = do
    modify
        (λ db. record db { members = p.put (kb_id, user_id) (record { role = role }) db.members })
    log_action (record {
      actor_id = some author.id;
      action = "KB_MEMBER_UPSERT";
      entity_type = "KbMember";
      entity_id = kb_id ++ (":" ++ user_id);
      kb_id = some kb_id;
    })
    pure (record { role = role })

  unfoldable pub add_member : String → AuthenticatedUser → String → KbRole → Exec (Db p) KbMember
  add_member kb_id author user_id role = do
    assert_kb_access kb_id author (KbRole.owner ∷ [])
    ensure_target_user_exists user_id
    ensure_owner_mutation_allowed kb_id user_id (some role)
    upsert_member kb_id author user_id role

  -- the writes of `removeMember`: `delete` is rejected if there is no such row
  unfoldable pub delete_member : String → AuthenticatedUser → String → Exec (Db p) Unit
  delete_member kb_id author target = do
    row ← gets (λ db. p.find_unique (kb_id, target) db.members)
    require fault row
    modify (λ db. record db { members = p.delete (kb_id, target) db.members })
    log_action (record {
      actor_id = some author.id;
      action = "KB_MEMBER_REMOVE";
      entity_type = "KbMember";
      entity_id = kb_id ++ (":" ++ target);
      kb_id = some kb_id;
    })

  unfoldable pub remove_member : String → AuthenticatedUser → String → Exec (Db p) Unit
  remove_member kb_id author target = do
    assert_kb_access kb_id author (KbRole.owner ∷ [])
    guard (not (author.id == target)) (forbidden "Cannot remove yourself as an owner")
    ensure_owner_mutation_allowed kb_id target none
    delete_member kb_id author target
