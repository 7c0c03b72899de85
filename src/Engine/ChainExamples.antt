-- ===== src/Engine/ChainExamples.antt =====
-- A workflow of three steps, one after another, whose first step completes.
use quacker.Prelude.{
  ◌≡◌, refl, String, true, false, [], ◌∷◌, List, Memᴰ, none, some, arith, any, eq_iff, all,
}
use quacker.Table.{select, first, count, update}
use quacker.Table.Distinct.{distinct}
use quacker.Store.Model.{Status, Step, Db, ok}
use quacker.Store.Complete.{
  Completion, CompleteResult, complete_step, complete_step_tx, complete_live, step_count,
  complete_dag, unblock_ready, unblock_each, is_blocked_dependent, has_succeeded, succeed_row,
  queue_step,
}
use quacker.Store.Complete.Wakeup.{BelongsTo}
use quacker.Store.Dag.{BlockedWait, Done, HasKeys}
use quacker.Store.Samples.{plain_run, plain_step, db_of, keyed_rows, all_three}
use quacker.Engine.Requests.{StepReq}
use quacker.Engine.Dag.{validate_dag, check_names, link_steps, link_deps, visit, relax}
use quacker.Engine.Build.Progress.{Open, complete_step-Open}
use quacker.Engine.RunSamples.{task_t}

abbrev req : String → List String → StepReq
req name deps = record { name = name; deps = deps; def = some task_t }

abbrev three_reqs : List StepReq
three_reqs = req "a" [] ∷ req "b" ("a" ∷ []) ∷ req "c" ("b" ∷ []) ∷ []

three_accepted : validate_dag three_reqs ≡ none
unfolding validate_dag check_names link_steps link_deps visit relax any select
three_accepted = refl

abbrev first_step : Step
first_step = plain_step "r/a" "r" "a" Status.running []

abbrev second_step : Step
second_step = plain_step "r/b" "r" "b" Status.blocked ("a" ∷ [])

abbrev third_step : Step
third_step = plain_step "r/c" "r" "c" Status.blocked ("b" ∷ [])

abbrev three_db : Db
three_db = db_of (plain_run "r" Status.running ∷ []) (first_step ∷ second_step ∷ third_step ∷ [])

three-HasKeys : HasKeys three_db.steps
unfolding distinct any
three-HasKeys = keyed_rows three_db.steps refl refl

none-Done : (r d : String) → Done three_db.steps r d → ⊥
none-Done r d done =
    all_three (λ s. s.status ≡ Status.succeeded → ⊥) first_step second_step third_step
      (λ bad. absurd (ground arith)) (λ bad. absurd (ground arith)) (λ bad. absurd (ground arith))
      done.step done.mem done.succeeded

three-BlockedWait : BlockedWait three_db.steps
three-BlockedWait =
    all_three
      (λ s.
        s.status ≡ Status.blocked
        → (d : String) × Memᴰ d s.depends_on × (Done three_db.steps s.run_id d → ⊥))
      first_step second_step third_step (λ bad. absurd (ground arith))
      (λ _. ("a", Memᴰ.head refl, none-Done "r" "a"))
      (λ _. ("b", Memᴰ.head refl, none-Done "r" "b"))

abbrev done_first : Completion
done_first = record { step_id = "r/a"; run_id = "r"; name = "a"; output = 7 ∷ []; now = 9 }

first-BelongsTo : BelongsTo done_first three_db.steps
first-BelongsTo =
    all_three (λ s. s.id ≡ "r/a" → (s.run_id ≡ "r") × (s.name ≡ "a")) first_step second_step
      third_step (λ _. (refl, refl)) (λ e. absurd (ground (arith, eq_iff "r/b" "r/a")))
      (λ e. absurd (ground (arith, eq_iff "r/c" "r/a")))

-- After it the second step is queued, and the third still waits.
abbrev first_done : Step
first_done = succeed_row (7 ∷ []) 9 first_step

abbrev second_queued : Step
second_queued = queue_step 9 second_step

abbrev later_db : Db
later_db = db_of (plain_run "r" Status.running ∷ []) (first_done ∷ second_queued ∷ third_step ∷ [])

abbrev completed : CompleteResult
completed = record {
  step_done = true;
  ready_steps = "b" ∷ [];
  cancelled_steps = [];
  cancelled_step_ids = [];
  run_terminal = false;
  run_status = some Status.running;
  run_error = "";
  run_output = [];
}

first_completed : complete_step done_first three_db ≡ ok (later_db, completed)
unfolding complete_step complete_step_tx first complete_live count step_count complete_dag any
    unblock_ready unblock_each select update is_blocked_dependent all has_succeeded
first_completed = refl

abbrev IsRequested : Step → Type 0
IsRequested s =
    s.run_id ≡ "r"
    → (sr : StepReq) × Memᴰ sr three_reqs × (s.name ≡ sr.name) × (s.depends_on ≡ sr.deps)

abbrev IsPresent : StepReq → Type 0
IsPresent sr = (s : Step) × Memᴰ s later_db.steps × (s.run_id ≡ "r") × (s.name ≡ sr.name)

complete_step-Open_example : Open "r" later_db.steps
complete_step-Open_example =
    complete_step-Open "r" three_reqs done_first three_db later_db completed third_step
      three_accepted three-HasKeys first-BelongsTo three-BlockedWait first_completed
      (record {
        requested =
            all_three IsRequested first_done second_queued third_step
              (λ _. (req "a" [], Memᴰ.head refl, refl, refl))
              (λ _. (req "b" ("a" ∷ []), Memᴰ.tail (Memᴰ.head refl), refl, refl))
              (λ _. (req "c" ("b" ∷ []), Memᴰ.tail (Memᴰ.tail (Memᴰ.head refl)), refl, refl));
        present =
            all_three IsPresent (req "a" []) (req "b" ("a" ∷ [])) (req "c" ("b" ∷ []))
              (first_done, Memᴰ.head refl, refl, refl)
              (second_queued, Memᴰ.tail (Memᴰ.head refl), refl, refl)
              (third_step, Memᴰ.tail (Memᴰ.tail (Memᴰ.head refl)), refl, refl);
      })
      (Memᴰ.tail (Memᴰ.tail (Memᴰ.head refl))) refl refl
