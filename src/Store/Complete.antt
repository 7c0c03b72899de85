-- ===== src/Store/Complete.antt =====
-- Step completion of internal/store/queries.go: CompleteStep, CompleteSteps, FinalFailStep and the
-- deletion of ephemeral runs. Each is one transaction that holds the run lock, so it is a function of
-- the database; a failed statement rolls it back.
pub mod Unblock
pub mod Dependencies
pub mod Terminal
pub mod Wakeup
use quacker.Prelude.{
  ℕ, zero, suc, ◌+◌, String, Bool, true, false, not, ◌&&◌, ◌||◌, List, [], ◌∷◌, ◌++◌, Option, none,
  some, map, ltb, leb, ◌==◌, str_eq, if◌then◌else◌, any, all,
}
use quacker.Table.{select, first, count, update, delete, order_by}
use quacker.Store.Model.{
  Status, is, is_terminal, is_active, Bytes, Run, Step, StepKeyRow, JournalEntry, Db, Error, Result,
  ok, err, no_rows, ◌>>=◌,
}

pub record CompleteResult : Type 0 where
  pub step_done : Bool
  pub ready_steps : List String
  pub cancelled_steps : List String
  pub cancelled_step_ids : List String
  pub run_terminal : Bool
  pub run_status : Option Status
  pub run_error : String
  pub run_output : Bytes

pub record Completion : Type 0 where
  pub step_id : String
  pub run_id : String
  pub name : String
  pub output : Bytes
  pub now : ℕ

abbrev pub in_run : String → Step → Bool
in_run run_id s = str_eq s.run_id run_id

abbrev pub has_id : String → Step → Bool
has_id id s = str_eq s.id id

abbrev pub is_run : String → Run → Bool
is_run id r = str_eq r.id id

-- DELETE FROM steps: the foreign keys take the keys and the journal of the steps along.
unfoldable pub delete_steps : (Step → Bool) → Db → Db
delete_steps p db = record db {
  steps = delete p db.steps;
  step_keys = delete (λ k. any (λ s. p s && str_eq s.id k.step_id) db.steps) db.step_keys;
  journal = delete (λ e. any (λ s. p s && str_eq s.id e.step_id) db.steps) db.journal;
}

-- deleteEphemeralRunTx
unfoldable pub delete_ephemeral_run : String → Db → Db
unfolding delete_steps
delete_ephemeral_run run_id db =
    let db1 = delete_steps (in_run run_id) db in
    record db1 {
      logs = delete (λ l. str_eq l.run_id run_id) db1.logs;
      runs = delete (is_run run_id) db1.runs;
    }

abbrev pub delete_if_ephemeral : Run → Db → Db
delete_if_ephemeral run db = if run.ephemeral then delete_ephemeral_run run.id db else db

-- stepCountsTx, for one run
unfoldable pub step_count : Db → String → ℕ
step_count db run_id = count (in_run run_id) db.steps

-- Whether the run's step named `name` has SUCCEEDED. A step's id is its run's id with its name, so
-- the query finds at most one row.
abbrev pub is_named : String → String → Step → Bool
is_named run_id name s = str_eq s.run_id run_id && str_eq s.name name

unfoldable pub has_succeeded : List Step → String → String → Bool
has_succeeded steps run_id name = elim (first (is_named run_id name) steps) [
  | none ↦ false
  | some s ↦ is Status.succeeded s.status
]

-- BlockedDependentsSQL
unfoldable pub is_blocked_dependent : String → String → Step → Bool
is_blocked_dependent run_id completed_name s =
    str_eq s.run_id run_id
    && (is Status.blocked s.status && any (λ d. str_eq d completed_name) s.depends_on)

abbrev pub is_blocked_row : String → Step → Bool
is_blocked_row id s = str_eq s.id id && is Status.blocked s.status

abbrev pub queue_step : ℕ → Step → Step
queue_step now s = record s { status = Status.queued; run_at = now }

-- The loop over the blocked dependents. `before` is the table as the status query read it.
unfoldable pub unblock_each :
    List Step → String → ℕ → List Step → List Step → List Step × List String
unblock_each before run_id now [] steps = (steps, [])
unblock_each before run_id now (b ∷ rest) steps =
    let ready = all (has_succeeded before run_id) b.depends_on in
    let steps1 = if ready then update (is_blocked_row b.id) (queue_step now) steps else steps in
    let (steps2, names) = unblock_each before run_id now rest steps1 in
    (steps2, if ready then b.name ∷ names else names)

-- unblockReadyTx
unfoldable pub unblock_ready : String → String → ℕ → List Step → List Step × List String
unblock_ready run_id completed_name now steps =
    unblock_each steps run_id now (select (is_blocked_dependent run_id completed_name) steps) steps

-- status IN ('QUEUED','RUNNING')
abbrev pub is_unfinished : Status → Bool
is_unfinished s = is Status.queued s || is Status.running s

abbrev pub can_complete : String → Step → Bool
can_complete id s = str_eq s.id id && is_unfinished s.status

abbrev pub cancel_step_row : ℕ → Step → Step
cancel_step_row now s = record s { status = Status.cancelled; completed_at = now }

abbrev pub succeed_row : Bytes → ℕ → Step → Step
succeed_row output now s = record s {
  status = Status.succeeded;
  output = output;
  error = "";
  completed_at = now;
}

abbrev pub is_live_run : String → Run → Bool
is_live_run id r = str_eq r.id id && not (is_terminal r.status)

-- The guarded UPDATE that ends a run and frees its unique key.
abbrev pub end_run : Status → Bytes → String → ℕ → Run → Run
end_run status output error now r = record r {
  status = status;
  output = output;
  error = error;
  completed_at = now;
  unique_key = "";
}

abbrev pub refused : CompleteResult
refused = record {
  step_done = false;
  ready_steps = [];
  cancelled_steps = [];
  cancelled_step_ids = [];
  run_terminal = false;
  run_status = none;
  run_error = "";
  run_output = [];
}

abbrev pub still_running : List String → CompleteResult
still_running names = record refused {
  step_done = true;
  ready_steps = names;
  run_status = some Status.running;
}

abbrev pub ended : List String → Status → String → Bytes → CompleteResult
ended names status error output = record refused {
  step_done = true;
  ready_steps = names;
  run_terminal = true;
  run_status = some status;
  run_error = error;
  run_output = output;
}

-- The run's outcome: a failed step's error, if any, and the output of the step with the highest ord.
unfoldable pub run_outcome : String → List Step → Status × String
run_outcome run_id steps = elim (first (λ s. in_run run_id s && is Status.failed s.status) steps) [
  | none ↦ (Status.succeeded, "")
  | some s ↦ (Status.failed, s.error)
]

unfoldable pub last_output : String → List Step → Bytes
last_output run_id steps = elim (order_by (λ a b. ltb b.ord a.ord) (select (in_run run_id) steps)) [
  | [] ↦ []
  | s ∷ _ ↦ s.output
]

-- The fast path of a run with one step.
unfoldable pub complete_single : Run → Completion → Db → Db × CompleteResult
complete_single run c db = (
  delete_if_ephemeral run (record db {
    runs = update (is_live_run run.id) (end_run Status.succeeded c.output "" c.now) db.runs;
  }),
  ended [] Status.succeeded "" c.output,
)

-- The general path: unblock the dependents, and end the run when no step is active.
unfoldable pub complete_dag : Run → Completion → Db → Db × CompleteResult
complete_dag run c db =
    let (steps, names) = unblock_ready run.id c.name c.now db.steps in
    let db1 = record db { steps = steps } in
    let (status, error) = run_outcome run.id steps in
    let output = last_output run.id steps in
    if any (λ s. in_run run.id s && is_active s.status) steps then (db1, still_running names) else (
      delete_if_ephemeral run (record db1 {
        runs = update (is_live_run run.id) (end_run status output error c.now) db1.runs;
      }),
      ended names status error output,
    )

-- The success is recorded, and the run goes on.
unfoldable pub complete_live : ℕ → Run → Completion → Db → Db × CompleteResult
complete_live step_count run c db =
    let db1 = record db {
      steps = update (can_complete c.step_id) (succeed_row c.output c.now) db.steps;
    } in
    if count (can_complete c.step_id) db.steps == 0
    then (db, refused)
    else (if step_count == 1 then complete_single run c db1 else complete_dag run c db1)

-- A terminal run gains no SUCCEEDED step: the step converges to CANCELLED.
unfoldable pub complete_dead : Completion → Db → Db × CompleteResult
complete_dead c db = (
  record db { steps = update (can_complete c.step_id) (cancel_step_row c.now) db.steps },
  refused,
)

-- completeStepTx
unfoldable pub complete_step_tx : ℕ → Completion → Db → Result (Db × CompleteResult)
complete_step_tx step_count c db = elim (first (is_run c.run_id) db.runs) [
  | none ↦ err no_rows
  | some run ↦
      ok (if is_terminal run.status then complete_dead c db else complete_live step_count run c db)
]

-- CompleteStep
unfoldable pub complete_step : Completion → Db → Result (Db × CompleteResult)
complete_step c db = complete_step_tx (step_count db c.run_id) c db

-- CompleteSteps: the step counts are those at the start of the batch.
unfoldable pub complete_each : Db → List Completion → Db → Result (Db × List CompleteResult)
complete_each start [] db = ok (db, [])
complete_each start (c ∷ cs) db = do
  r ← complete_step_tx (step_count start c.run_id) c db
  rest ← complete_each start cs r.0
  ok (rest.0, r.1 ∷ rest.1)

unfoldable pub complete_steps : List Completion → Db → Result (Db × List CompleteResult)
complete_steps cs db = complete_each db cs db

-- FinalFailStep
abbrev pub fail_row : String → ℕ → Step → Step
fail_row msg now s = record s { status = Status.failed; error = msg; completed_at = now }

abbrev pub is_sibling : String → String → Step → Bool
is_sibling run_id step_id s =
    str_eq s.run_id run_id && (is_active s.status && not (str_eq s.id step_id))

abbrev pub fail_run : String → Bool → ℕ → Run → Run
fail_run msg mark now r = record r {
  status = Status.failed;
  error = msg;
  completed_at = now;
  unique_key = "";
  dead_lettered_at = if mark then now else r.dead_lettered_at;
}

unfoldable pub final_fail_step :
    String → String → String → Bool → ℕ → Db → Result (Db × CompleteResult)
final_fail_step step_id run_id msg dead_letter now db = elim (first (is_run run_id) db.runs) [
  | none ↦ err no_rows
  | some run ↦
      (let failed_steps = update (has_id step_id) (fail_row msg now) db.steps in
        let siblings = select (is_sibling run_id step_id) failed_steps in
        ok (
          delete_if_ephemeral run (record db {
            steps = update (is_sibling run_id step_id) (cancel_step_row now) failed_steps;
            runs =
                update (is_live_run run_id) (fail_run msg (dead_letter && not run.ephemeral) now)
                  db.runs;
          }),
          record (ended [] Status.failed msg []) {
            cancelled_steps = map (λ s. s.name) siblings;
            cancelled_step_ids = map (λ s. s.id) siblings;
          },
        ))
]
