-- ===== src/Evals/Runs/Closed.antt =====
-- `runEvalSet` of services/api/src/evals/evals.service.ts as a whole: what it leaves when it succeeds,
-- and that no run is left running.
use rag_stack_monorepo.Prelude.{
  true, Bool, String, ◌≡◌, refl, sym, ◌∙◌, Option, List, string_eq, pair_eq, some, arith, ◌≢◌,
}
use rag_stack_monorepo.Exec.{
  guard, fault, continue, HttpError, ok, Exec, modify, ◌>>=◌, ◌>>◌, lift, Result, require,
  not_found, gets, err,
}
use rag_stack_monorepo.Prisma.{Prisma}
use mathlib.Core.Path.{subst}
use mathlib.Core.Option.{none, some}
use rag_stack_monorepo.Exec.Keeps.{Keeps-read, after_guard_keeps}
use rag_stack_monorepo.Schema.{Db, EvalCase, EvalRun, EvalSet, EvalRunStatus}
use rag_stack_monorepo.Authorization.Roles.{AuthenticatedUser, assert_ops_access}
use rag_stack_monorepo.Evals.Comparison.Previous.{PreviousRunSnapshot}
use rag_stack_monorepo.Evals.Execution.{EvalServices, EvalRetrievalConfig}
use rag_stack_monorepo.Prelude.{filter}
use rag_stack_monorepo.Evals.Sets.{of_run, get_eval_run, EvalRunView, active_cases}
use rag_stack_monorepo.Evals.Runs.{
  RunWrite, try_run, EvalOutside, complete_run, EvalRunView, completed_run, put_run, caught,
  start_run, run_eval_set, CreateEvalRunDto, retrieval_config, previous_snapshot, active_cases,
  failed_run,
}
use rag_stack_monorepo.Evals.Runs.Ends.{some_inj, run_row, complete_run-Finished, put_row}

-- The rest of a block runs in the changed state, or with what was read.
modify_first :
    {S B : Type 0} (Q : S → Type 0) (f : S → S) (n : Exec S B) (s : S)
    → ((t : S) → Q (n t).1)
    → Q ((modify f >> n) s).1
unfolding ◌>>=◌
modify_first Q f n s h = h (f s)

gets_first :
    {S A B : Type 0} (Q : S → Type 0) (g : S → A) (f : A → Exec S B) (s : S)
    → ((a : A) → Q (f a s).1)
    → Q ((gets g >>= f) s).1
unfolding ◌>>=◌
gets_first Q g f s h = h (g s)

guard_first :
    {S B : Type 0} (Q : S → Type 0) (b : Bool) (e : HttpError) (n : Exec S B) (s : S)
    → b ≡ true
    → Q (n s).1
    → Q ((guard b e >> n) s).1
unfolding ◌>>=◌
guard_first Q b e n s t h = rw t h

-- An action that leaves the state alone, at the end of a block.
then_read :
    {S A B : Type 0} (Q : S → Type 0) (m : Exec S A) (n : Exec S B) (s : S)
    → ((t : S) → (n t).1 ≡ t)
    → Q (m s).1
    → Q ((m >> n) s).1
unfolding ◌>>=◌
then_read {S = S} {A = A} Q m n s same h = go (m s) h
  where
    go : (r : Result A × S) → Q r.1 → Q (continue r (λ _. n)).1
    go (ok a, t) k = subst Q (sym (same t)) k
    go (err x, t) k = k

module _ (p : Prisma) (s : EvalServices) (o : EvalOutside) where
  -- No run under the new identifier is stored as running.
  abbrev pub NoneRunning : Db p → Type 0
  NoneRunning db =
      (run : EvalRun) → run_row p s o db ≡ some run → run.status ≢ EvalRunStatus.running

  closed :
      (db : Db p) (run : EvalRun)
      → run_row p s o db ≡ some run
      → run.status ≢ EvalRunStatus.running
      → NoneRunning db
  closed db run r n other e =
      subst (λ (x : EvalRun). x.status ≢ EvalRunStatus.running) (some_inj (sym r ∙ e)) n

  completed_not_running : EvalRunStatus.completed ≢ EvalRunStatus.running
  completed_not_running q = ground arith

  failed_not_running : EvalRunStatus.failed ≢ EvalRunStatus.running
  failed_not_running q = ground arith

  -- The try block and its catch leave no running run, from whatever state, if the mark of the
  -- failure is taken.
  try_run-NoneRunning :
      (u : AuthenticatedUser) (set : String × EvalSet) (config : EvalRetrievalConfig)
      (previous : Option PreviousRunSnapshot) (cases : List (String × EvalCase)) (db : Db p)
      → o.taken RunWrite.failure ≡ true
      → NoneRunning (try_run p s o u set config previous cases db).1
  unfolding try_run
  try_run-NoneRunning u set config previous cases db marked =
      go (complete_run p s o u set config previous cases db) refl
    where
      go :
          (r : Result Unit × Db p)
          → complete_run p s o u set config previous cases db ≡ r
          → NoneRunning (caught p s o set r).1
      go (ok done, t) e =
          let c = complete_run-Finished p s o u set config previous cases db t done e in
          closed t (completed_run p s o set c.summary) c.row completed_not_running
      go (err x, t) e = rw marked (
          closed (record t { eval_runs = p.put o.new_run_id (failed_run p s o set x) t.eval_runs })
            (failed_run p s o set x) (put_row p s o (failed_run p s o set x) t.eval_runs)
            failed_not_running)

  required : {A : Type 0} (e : HttpError) (row : Option A) (db : Db p) → (require e row db).1 ≡ db
  required e none db = refl
  required e (some a) db = refl

  get_eval_run_reads :
      (u : AuthenticatedUser) (id : String) (db : Db p) → (get_eval_run p u id db).1 ≡ db
  unfolding get_eval_run
  get_eval_run_reads u id db =
      Keeps-read (λ t. t ≡ db) (lift (assert_ops_access (some u))) _ (λ _. refl)
        (λ _ d1 _ h1.
          Keeps-read (λ t. t ≡ db) (gets (λ (d : Db p). p.find_unique id d.eval_runs)) _ (λ _. refl)
            (λ row d2 _ h2.
              Keeps-read (λ t. t ≡ db) (require (not_found "Eval run not found") row) _
                (required (not_found "Eval run not found") row)
                (λ run d3 _ h3.
                  Keeps-read (λ t. t ≡ db) (gets (λ (d : Db p). filter (of_run id) d.eval_items)) _
                    (λ _. refl) (λ _ _ _ h4. h4) d3 h3)
                d2 h2)
            d1 h1)
        db refl

  start-NoneRunning :
      (u : AuthenticatedUser) (dto : CreateEvalRunDto) (set : String × EvalSet)
      (cases : List (String × EvalCase)) (db : Db p)
      → o.taken RunWrite.start_audit ≡ true
      → o.taken RunWrite.failure ≡ true
      → NoneRunning db
      → NoneRunning (start_run p s o u dto set cases db).1
  unfolding start_run put_run
  start-NoneRunning u dto set cases db audited marked none_before =
      after_guard_keeps NoneRunning (o.taken RunWrite.creation) _ _ db none_before λ _.
        modify_first NoneRunning _ _ db λ d1.
          guard_first NoneRunning (o.taken RunWrite.start_audit) fault _ d1 audited (
            modify_first NoneRunning _ _ d1 λ d2.
              gets_first NoneRunning (previous_snapshot p s o set.0) _ d2 λ previous.
                then_read NoneRunning
                  (try_run p s o u set (retrieval_config p s o dto) previous cases)
                  (get_eval_run p u o.new_run_id) d2 (get_eval_run_reads u o.new_run_id)
                  (try_run-NoneRunning u set (retrieval_config p s o dto) previous cases d2 marked))

  -- If the audit log takes the start of a run, and the database takes the mark of a failure, then
  -- however the run ends, returning or throwing, whichever other write fails, the run that was started
  -- is not left in the state "running", if no such run was there before.
  pub run_eval_set-NoneRunning :
      (u : AuthenticatedUser) (dto : CreateEvalRunDto) (db : Db p)
      → o.taken RunWrite.start_audit ≡ true
      → o.taken RunWrite.failure ≡ true
      → NoneRunning db
      → NoneRunning (run_eval_set p s o u dto db).1
  unfolding run_eval_set
  run_eval_set-NoneRunning u dto db audited marked none_before =
      Keeps-read NoneRunning (lift (assert_ops_access (some u))) _ (λ _. refl)
        (λ _ d1 _ h1. after_guard_keeps NoneRunning s.is_configured _ _ d1 h1 λ _.
          Keeps-read NoneRunning (gets (λ (db : Db p). p.find_unique dto.eval_set_id db.eval_sets))
            _ (λ _. refl)
            (λ row d2 _ h2.
              Keeps-read NoneRunning (require (not_found "Eval set not found") row) _
                (required (not_found "Eval set not found") row)
                (λ set d3 _ h3.
                  Keeps-read NoneRunning (gets (active_cases p dto.eval_set_id)) _ (λ _. refl)
                    (λ cases d4 _ h4. after_guard_keeps NoneRunning _ _ _ d4 h4 λ _.
                      start-NoneRunning u dto (dto.eval_set_id, set) cases d4 audited marked h4)
                    d3 h3)
                d2 h2)
            d1 h1)
        db none_before
