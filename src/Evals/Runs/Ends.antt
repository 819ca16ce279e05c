-- ===== src/Evals/Runs/Ends.antt =====
-- How `runEvalSet` of services/api/src/evals/evals.service.ts leaves the run that it starts.
use rag_stack_monorepo.Prelude.{
  String, ◌≡◌, refl, sym, ap, ◌∙◌, true, Option, List, [], ◌∷◌, ◌++◌, map, eq_refl, string_eq,
  pair_eq, All, some, arith, All-append,
}
use rag_stack_monorepo.Exec.{
  ok, Exec, modify, ◌>>=◌, ◌>>◌, lift, after_require, Result, after_bind, after_gets, after_guard,
}
use rag_stack_monorepo.Prisma.{Prisma}
use mathlib.Core.Path.{subst}
use mathlib.Core.Option.{some}
use mathlib.Core.List.{append_assoc, append-nil}
use rag_stack_monorepo.Schema.{Db, EvalCase, EvalItem, EvalRun, EvalSet}
use rag_stack_monorepo.Authorization.Roles.{AuthenticatedUser, assert_ops_access}
use rag_stack_monorepo.Evals.Reporting.{EvalRunItemSnapshot, EvalRunSummary, build_run_summary}
use rag_stack_monorepo.Evals.Comparison.Previous.{PreviousRunSnapshot}
use rag_stack_monorepo.Evals.Execution.{EvalServices, EvalRetrievalConfig}
use rag_stack_monorepo.Evals.Sets.{of_run, get_eval_run, EvalRunView}
use rag_stack_monorepo.Evals.Runs.{
  EvalOutside, record_case, record_cases, current_item, eval_item, get_eval_run, complete_run,
  EvalRunView, completed_run, put_run,
}

abbrev pub case_ids : List EvalItem → List String
case_ids = map (λ (i : EvalItem). i.eval_case_id)

abbrev pub ids_of : List (String × EvalCase) → List String
ids_of = map (λ (c : String × EvalCase). c.0)

pub ok_inj : {A : Type 0} {a b : A} → ◌≡◌ {A = Result A} (ok a) (ok b) → a ≡ b
ok_inj q = ground arith

pub some_inj : {A : Type 0} {a b : A} → some a ≡ some b → a ≡ b
some_inj q = ground arith

pub after_modify :
    {S B : Type 0} (f : S → S) (n : Exec S B) (s : S) {b : B} {t : S}
    → (modify f >> n) s ≡ (ok b, t)
    → n (f s) ≡ (ok b, t)
unfolding ◌>>=◌
after_modify f n s h = h

module _ (p : Prisma) (s : EvalServices) (o : EvalOutside) where
  -- An item of the run was added for each of the cases, in order, and the runs are as they were.
  pub record Recorded (cases : List (String × EvalCase)) (db db' : Db p) : Type 0 where
    pub added : List EvalItem
    pub items : db'.eval_items ≡ db.eval_items ++ added
    pub cases_of : case_ids added ≡ ids_of cases
    pub runs_of : All (λ i. of_run o.new_run_id i ≡ true) added
    pub runs : db'.eval_runs ≡ db.eval_runs

  module _ (u : AuthenticatedUser) (kb_id : String) (config : EvalRetrievalConfig) where
    record_case-Recorded :
        (previous : Option PreviousRunSnapshot) (c : String × EvalCase) (db db' : Db p)
        (item : EvalRunItemSnapshot)
        → record_case p s o u kb_id config previous c db ≡ (ok item, db')
        → Recorded (c ∷ []) db db'
    unfolding record_case eval_item
    record_case-Recorded previous c db db' item h = after_gets _ _ db h λ result e k.
        after_guard _ _ _ db k λ stored m.
          let state = ap (λ x. x.1) (after_modify _ _ db m) in
          record {
            added = eval_item p s o c.0 result (current_item p s o previous c result) ∷ [];
            items = sym (ap (λ (d : Db p). d.eval_items) state);
            cases_of = refl;
            runs_of = (eq_refl o.new_run_id, tt);
            runs = sym (ap (λ (d : Db p). d.eval_runs) state);
          }

    case_ids-append : (xs ys : List EvalItem) → case_ids (xs ++ ys) ≡ case_ids xs ++ case_ids ys
    case_ids-append [] ys = refl
    case_ids-append (x ∷ xs) ys = ap (λ l. x.eval_case_id ∷ l) (case_ids-append xs ys)

    joined :
        (x : String × EvalCase) (ys : List (String × EvalCase)) (a b c : Db p)
        → Recorded (x ∷ []) a b
        → Recorded ys b c
        → Recorded (x ∷ ys) a c
    joined x ys a b c h g = record {
      added = h.added ++ g.added;
      items =
          g.items ∙ (ap (λ l. l ++ g.added) h.items ∙ append_assoc a.eval_items h.added g.added);
      cases_of =
          case_ids-append h.added g.added
          ∙ (ap (λ l. l ++ case_ids g.added) h.cases_of ∙ ap (λ l. x.0 ∷ l) g.cases_of);
      runs_of = All-append _ h.added g.added h.runs_of g.runs_of;
      runs = g.runs ∙ h.runs;
    }

    pub record_cases-Recorded :
        (previous : Option PreviousRunSnapshot) (cases : List (String × EvalCase)) (db db' : Db p)
        (items : List EvalRunItemSnapshot)
        → record_cases p s o u kb_id config previous cases db ≡ (ok items, db')
        → Recorded cases db db'
    unfolding record_cases
    record_cases-Recorded previous [] db db' items h =
        let state = ap (λ x. x.1) h in
        record {
          added = [];
          items = sym (ap (λ (d : Db p). d.eval_items) state) ∙ sym (append-nil db.eval_items);
          cases_of = refl;
          runs_of = tt;
          runs = sym (ap (λ (d : Db p). d.eval_runs) state);
        }
    record_cases-Recorded previous (c ∷ cs) db db' items h = after_bind _ _ db h λ item d1 e k.
        after_bind _ _ d1 k λ rest d2 g m.
          let state = ap (λ x. x.1) m in
          joined c cs db d1 db' (record_case-Recorded previous c db d1 item e)
            (subst (Recorded cs d1) state (record_cases-Recorded previous cs d1 d2 rest g))

  abbrev pub run_row : Db p → Option EvalRun
  run_row db = p.find_unique o.new_run_id db.eval_runs

  -- What a run that succeeds leaves: its row is completed, with the summary, it is what is returned,
  -- and each case has an item.
  pub record Completed (set : String × EvalSet) (cases : List (String × EvalCase))
      (view : EvalRunView) (db db' : Db p) : Type 0 where
    pub summary : EvalRunSummary
    pub row : run_row db' ≡ some (completed_run p s o set summary)
    pub returned : view.run ≡ completed_run p s o set summary
    pub added : List EvalItem
    pub items : db'.eval_items ≡ db.eval_items ++ added
    pub cases_of : case_ids added ≡ ids_of cases
    pub runs_of : All (λ i. of_run o.new_run_id i ≡ true) added

  -- What the try block leaves when it ends.
  pub record Finished (set : String × EvalSet) (cases : List (String × EvalCase)) (db db' : Db p)
      : Type 0 where
    pub summary : EvalRunSummary
    pub row : run_row db' ≡ some (completed_run p s o set summary)
    pub added : List EvalItem
    pub items : db'.eval_items ≡ db.eval_items ++ added
    pub cases_of : case_ids added ≡ ids_of cases
    pub runs_of : All (λ i. of_run o.new_run_id i ≡ true) added

  pub put_row :
      (run : EvalRun) (t : p.Table String EvalRun)
      → p.find_unique o.new_run_id (p.put o.new_run_id run t) ≡ some run
  put_row run t =
      ground (arith, p.find_unique-put o.new_run_id o.new_run_id run t, eq_refl o.new_run_id)

  pub viewed :
      (u : AuthenticatedUser) (db db' : Db p) (view : EvalRunView) (run : EvalRun)
      → get_eval_run p u o.new_run_id db ≡ (ok view, db')
      → run_row db ≡ some run
      → (view.run ≡ run) × (db ≡ db')
  unfolding get_eval_run
  viewed u db db' view run h r = after_bind (lift (assert_ops_access (some u))) _ db h λ x d e k.
      after_gets _ _ d k λ row f k1. after_require _ row _ d k1 λ found g k2.
        after_gets _ _ d k2 λ items i k3.
          let same = ap (λ x. x.1) e in
          let here : some found ≡ some run = sym g ∙ (sym f ∙ (ap run_row (sym same) ∙ r)) in
          let returned = ok_inj (ap (λ x. x.0) k3) in
          (sym (ap (λ (v : EvalRunView). v.run) returned) ∙ some_inj here, same ∙ ap (λ x. x.1) k3)

  pub complete_run-Finished :
      (u : AuthenticatedUser) (set : String × EvalSet) (config : EvalRetrievalConfig)
      (previous : Option PreviousRunSnapshot) (cases : List (String × EvalCase)) (db db' : Db p)
      (done : Unit)
      → complete_run p s o u set config previous cases db ≡ (ok done, db')
      → Finished set cases db db'
  unfolding complete_run
  complete_run-Finished u set config previous cases db db' done h =
      after_bind (record_cases p s o u set.1.kb_id config previous cases) _ db h λ items d1 e k.
        after_guard _ _ _ d1 k λ q m. after_guard _ _ _ d1 m λ q1 m1.
          let r = record_cases-Recorded u set.1.kb_id config previous cases db d1 items e in
          let summary = build_run_summary o.new_run_id items in
          let run = completed_run p s o set summary in
          let m2 = after_modify _ _ d1 (unfold put_run in m1) in
          after_guard _ _ _ _ m2 λ q3 m3.
            let last = ap (λ x. x.1) m3 in
            record {
              summary = summary;
              row = ap run_row (sym last) ∙ put_row run d1.eval_runs;
              added = r.added;
              items = ap (λ (d : Db p). d.eval_items) (sym last) ∙ r.items;
              cases_of = r.cases_of;
              runs_of = r.runs_of;
            }
