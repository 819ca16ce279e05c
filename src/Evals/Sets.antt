-- ===== src/Evals/Sets.antt =====
-- services/api/src/evals/evals.service.ts: `listEvalSets`, `createEvalSet`, `listEvalRuns` and
-- `getEvalRun`, which returns the run without its comparison.
use rag_stack_monorepo.Prelude.{
  ℕ, suc, String, Bool, true, false, ◌&&◌, Option, none, some, List, [], ◌∷◌, map, ◌==◌, ltb,
  truthy, string_eq, pair_eq, filter, reverse,
}
use rag_stack_monorepo.Exec.{not_found, Exec, pure, gets, require, lift, modify, ◌>>=◌, ◌>>◌}
use rag_stack_monorepo.Prisma.{Prisma, find_first, count}
use rag_stack_monorepo.Schema.{
  Db, EvalSet, EvalCase, EvalCaseStatus, EvalRun, EvalRunStatus, EvalItem,
}
use rag_stack_monorepo.Authorization.Roles.{AuthenticatedUser, assert_ops_access}
use rag_stack_monorepo.KnowledgeBases.{log_action}

pub record CreateEvalCaseDto : Type 0 where
  pub question : String
  pub expected_answer : Option String
  pub expected_source_document_id : Option String
  pub expected_source_hint : Option String
  pub category : Option String
  pub difficulty : Option String
  pub status : Option EvalCaseStatus

pub record CreateEvalSetDto : Type 0 where
  pub kb_id : String
  pub name : String
  pub description : Option String
  pub cases : List CreateEvalCaseDto

pub record EvalSetView : Type 0 where
  pub id : String
  pub set : EvalSet
  pub case_count : ℕ
  pub run_count : ℕ

pub record EvalRunView : Type 0 where
  pub id : String
  pub run : EvalRun
  pub items : List EvalItem

abbrev or_else : {A : Type 0} → Option A → A → A
or_else none a = a
or_else (some b) a = b

abbrev new_case : String → ℕ → CreateEvalCaseDto → EvalCase
new_case set_id now c = record {
  eval_set_id = set_id;
  question = c.question;
  expected_answer = c.expected_answer;
  expected_source_document_id = c.expected_source_document_id;
  expected_source_hint = c.expected_source_hint;
  category = or_else c.category "general";
  difficulty = or_else c.difficulty "medium";
  status = or_else c.status EvalCaseStatus.active;
  created_at = now;
}

-- An optional filter of a query: the empty text is none.
abbrev wanted : Option String → String → Bool
wanted filter_ value = elim (truthy filter_) [ none ↦ true | some v ↦ value == v ]

abbrev pub is_active : EvalCaseStatus → Bool
is_active EvalCaseStatus.active = true
is_active EvalCaseStatus.disabled = false

abbrev pub of_run : String → EvalItem → Bool
of_run id i = i.eval_run_id == id

abbrev is_completed : EvalRunStatus → Bool
is_completed EvalRunStatus.completed = true
is_completed EvalRunStatus.running = false
is_completed EvalRunStatus.failed = false

module _ (p : Prisma) where
  abbrev in_set : String → EvalCase → Bool
  in_set id c = c.eval_set_id == id

  abbrev run_in_set : String → EvalRun → Bool
  run_in_set id r = r.eval_set_id == id

  abbrev with_counts : Db p → String × EvalSet → EvalSetView
  with_counts db (id, set) = record {
    id = id;
    set = set;
    case_count = count p (λ _ c. in_set id c) db.eval_cases;
    run_count = count p (λ _ r. run_in_set id r) db.eval_runs;
  }

  unfoldable pub list_eval_sets : AuthenticatedUser → Option String → Exec (Db p) (List EvalSetView)
  list_eval_sets u kb_id = do
    lift (assert_ops_access (some u))
    gets (λ db.
        map (with_counts db)
          (p.find_many (λ (x : EvalSet). x.created_at) (λ _ x. wanted kb_id x.kb_id) db.eval_sets))

  -- Each case is created under the identifier that the database gives it.
  abbrev add_cases : String → ℕ → List (String × CreateEvalCaseDto) → Db p → Db p
  add_cases set_id now [] db = db
  add_cases set_id now ((id, c) ∷ cs) db =
      add_cases set_id now cs
        (record db { eval_cases = p.put id (new_case set_id now c) db.eval_cases })

  abbrev paired : (ℕ → String) → ℕ → List CreateEvalCaseDto → List (String × CreateEvalCaseDto)
  paired id_of n [] = []
  paired id_of n (c ∷ cs) = (id_of n, c) ∷ paired id_of (suc n) cs

  -- The arguments are the new identifiers, of the set and of the case at each place, and the clock.
  unfoldable pub create_eval_set :
      String
      → (ℕ → String)
      → ℕ
      → AuthenticatedUser
      → CreateEvalSetDto
      → Exec (Db p) (String × EvalSet)
  create_eval_set set_id case_id now u dto = do
    lift (assert_ops_access (some u))
    kb ← gets (λ (db : Db p). p.find_unique dto.kb_id db.kbs)
    row ← require (not_found "Knowledge base not found") kb
    let created : EvalSet = record {
      kb_id = dto.kb_id;
      name = dto.name;
      description = dto.description;
      created_at = now;
    }
    modify (λ (db : Db p).
        add_cases set_id now (paired case_id 0 dto.cases)
          (record db { eval_sets = p.put set_id created db.eval_sets }))
    log_action p (record {
      actor_id = some u.id;
      action = "EVAL_SET_CREATE";
      entity_type = "EvalSet";
      entity_id = set_id;
      kb_id = some dto.kb_id;
    })
    pure (set_id, created)

  unfoldable pub list_eval_runs :
      AuthenticatedUser → Option String → Option String → Exec (Db p) (List (String × EvalRun))
  list_eval_runs u eval_set_id kb_id = do
    lift (assert_ops_access (some u))
    gets (λ (db : Db p).
        p.find_many (λ (r : EvalRun). r.started_at)
          (λ _ r. wanted eval_set_id r.eval_set_id && wanted kb_id r.kb_id) db.eval_runs)

  unfoldable pub get_eval_run : AuthenticatedUser → String → Exec (Db p) EvalRunView
  get_eval_run u run_id = do
    lift (assert_ops_access (some u))
    row ← gets (λ (db : Db p). p.find_unique run_id db.eval_runs)
    run ← require (not_found "Eval run not found") row
    items ← gets (λ (db : Db p). filter (of_run run_id) db.eval_items)
    pure (record { id = run_id; run = run; items = items })

  -- The active cases of a set, the oldest first.
  unfoldable pub active_cases : String → Db p → List (String × EvalCase)
  active_cases set_id db = reverse (
      p.find_many (λ (c : EvalCase). c.created_at) (λ _ c. in_set set_id c && is_active c.status)
        db.eval_cases)

  -- The newest completed run of the set that started earlier.
  unfoldable pub previous_run : String → ℕ → Db p → Option (String × EvalRun)
  previous_run set_id started_at db =
      find_first p (λ (r : EvalRun). r.started_at)
        (λ _ r. run_in_set set_id r && (is_completed r.status && ltb r.started_at started_at))
        db.eval_runs
