-- ===== src/Store/Lifecycle.antt =====
-- The single-step and single-run transitions of internal/store/queries.go and store.go: retry, park,
-- cancel, snooze, pause, resume, and the leases.
use quacker.Prelude.{
  ℕ, ◌-◌, String, Bool, true, false, not, ◌&&◌, ◌||◌, List, [], ◌∷◌, none, some, map, ltb, take,
  ◌==◌, str_eq, if◌then◌else◌, any,
}
use quacker.Table.{select, first, count, update, delete}
use quacker.Store.Model.{
  Status, is, is_terminal, Run, Step, Db, Result, ok, err, not_found, run_terminal, run_running,
}
use quacker.Store.Complete.{is_run, cancel_step_row, delete_ephemeral_run}

abbrev pub is_running_step : String → Step → Bool
is_running_step id s = str_eq s.id id && is Status.running s.status

-- RetryStep
unfoldable pub retry_step : String → String → ℕ → Db → Db
retry_step id msg next_run_at db = record db {
  steps =
      update (is_running_step id)
        (λ s. record s { status = Status.queued; error = msg; run_at = next_run_at }) db.steps;
}

-- ParkStep: the claimed attempt and the rate window get their share back.
unfoldable pub park_step : String → String → ℕ → Db → Db
park_step id msg next_run_at db = record db {
  steps =
      update (is_running_step id)
        (λ s. record s {
          status = Status.queued;
          error = msg;
          run_at = next_run_at;
          claimed_at = 0;
          attempts = s.attempts - 1;
        })
        db.steps;
}

-- RequeuePausedStep
unfoldable pub requeue_paused_step : String → Db → Db
requeue_paused_step id db = record db {
  steps =
      update (is_running_step id)
        (λ s. record s {
          status = Status.queued;
          claimed_at = 0;
          worker_id = "";
          lease_expires_at = 0;
          attempts = s.attempts - 1;
        })
        db.steps;
}

-- StepCancelled
abbrev pub can_cancel_step : String → Step → Bool
can_cancel_step id s =
    str_eq s.id id
    && (is Status.queued s.status || (is Status.running s.status || is Status.suspended s.status))

unfoldable pub step_cancelled : String → ℕ → Db → Db
step_cancelled id now db = record db {
  steps =
      update (can_cancel_step id)
        (λ s. record s {
          status = Status.cancelled;
          completed_at = now;
          resume_at = 0;
          wait_kind = "";
          wait_event = "";
        })
        db.steps;
}

-- cancelRunTx: the RUNNING steps are left for their executors.
abbrev pub is_waiting_step : String → Step → Bool
is_waiting_step run_id s =
    str_eq s.run_id run_id
    && (is Status.queued s.status || (is Status.blocked s.status || is Status.suspended s.status))

abbrev pub cancel_row : ℕ → Run → Run
cancel_row now r = record r { status = Status.cancelled; completed_at = now; unique_key = "" }

unfoldable pub cancel_run_tx : String → ℕ → Db → Db
cancel_run_tx run_id now db = record db {
  runs = update (is_run run_id) (cancel_row now) db.runs;
  steps = update (is_waiting_step run_id) (cancel_step_row now) db.steps;
}

-- SELECT id FROM steps WHERE run_id=? AND status='RUNNING'
unfoldable pub running_steps : String → Db → List String
running_steps run_id db =
    map (λ s. s.id) (select (λ s. str_eq s.run_id run_id && is Status.running s.status) db.steps)

-- CancelRun: the RUNNING steps to interrupt, the previous status, and whether the run was cancelled.
pub record Cancelled : Type 0 where
  pub running : List String
  pub prev_status : Status
  pub changed : Bool

unfoldable pub cancel_run : String → ℕ → Db → Result (Db × Cancelled)
cancel_run run_id now db = elim (first (is_run run_id) db.runs) [
  | none ↦ err not_found
  | some run ↦ ok (
      if is_terminal run.status
      then (db, record { running = []; prev_status = run.status; changed = false })
      else (
        if run.ephemeral then delete_ephemeral_run run_id db else cancel_run_tx run_id now db,
        record { running = running_steps run_id db; prev_status = run.status; changed = true },
      ))
]

abbrev pub is_queued_step : String → Step → Bool
is_queued_step run_id s = str_eq s.run_id run_id && is Status.queued s.status

-- Snooze
unfoldable pub snooze : String → ℕ → Db → Result Db
snooze run_id until db = elim (first (is_run run_id) db.runs) [
  | none ↦ err not_found
  | some run ↦
      (if is_terminal run.status
        then err run_terminal
        else (if ltb 0 (count (λ s. str_eq s.run_id run_id && is Status.running s.status) db.steps)
            then err run_running
            else ok (record db {
              steps = update (is_queued_step run_id) (λ s. record s { run_at = until }) db.steps;
              runs = update (is_run run_id) (λ r. record r { run_at = until }) db.runs;
            })))
]

-- PauseRun
unfoldable pub pause_run : String → ℕ → Db → Result (Db × Cancelled)
pause_run run_id now db = elim (first (is_run run_id) db.runs) [
  | none ↦ err not_found
  | some run ↦
      (if is_terminal run.status
        then err run_terminal
        else (if is Status.paused run.status
            then ok (db, record { running = []; prev_status = run.status; changed = false })
            else ok (
              record db {
                runs =
                    update (is_run run_id)
                      (λ r. record r { status = Status.paused; paused_at = now }) db.runs;
              },
              record {
                running = running_steps run_id db;
                prev_status = run.status;
                changed = true;
              },
            )))
]

-- ResumeRun
unfoldable pub resume_run : String → ℕ → Db → Result Db
resume_run run_id now db = elim (first (is_run run_id) db.runs) [
  | none ↦ err not_found
  | some run ↦
      (if is_terminal run.status
        then err run_terminal
        else (if not (is Status.paused run.status)
            then ok db
            else ok (record db {
              steps = update (is_queued_step run_id) (λ s. record s { run_at = now }) db.steps;
              runs =
                  update (is_run run_id)
                    (λ r. record r { status = Status.queued; run_at = now; paused_at = 0 }) db.runs;
            })))
]

-- PauseQueue and ResumeQueue
unfoldable pub pause_queue : String → Db → Db
pause_queue name db = record db {
  queue_pauses =
      if any (λ q. str_eq q name) db.queue_pauses then db.queue_pauses else name ∷ db.queue_pauses;
}

unfoldable pub resume_queue : String → Db → Db
resume_queue name db = record db { queue_pauses = delete (λ q. str_eq q name) db.queue_pauses }

-- HeartbeatWorker
unfoldable pub heartbeat_worker : String → ℕ → Db → Db
heartbeat_worker worker_id lease_until db = record db {
  steps =
      update (λ s. str_eq s.worker_id worker_id && is Status.running s.status)
        (λ s. record s { lease_expires_at = lease_until }) db.steps;
}

-- ReapExpired: a RUNNING step with an expired lease, in a run that has not ended.
unfoldable pub is_expired : Db → ℕ → Step → Bool
is_expired db now s =
    is Status.running s.status
    && (ltb 0 s.lease_expires_at
        && (ltb s.lease_expires_at now
            && any (λ r. str_eq r.id s.run_id && not (is_terminal r.status)) db.runs))

abbrev pub requeue_row : ℕ → Step → Step
requeue_row now s = record s {
  status = Status.queued;
  run_at = now;
  worker_id = "";
  lease_expires_at = 0;
}

-- UPDATE steps ... WHERE id IN (SELECT ... LIMIT n): the ids first, then the rows with these ids.
unfoldable pub expired_ids : Db → ℕ → ℕ → List String
expired_ids db now limit = map (λ s. s.id) (take limit (select (is_expired db now) db.steps))

abbrev pub is_among : List String → Step → Bool
is_among ids s = any (λ i. str_eq i s.id) ids

unfoldable pub reap_expired : ℕ → ℕ → Db → Db × ℕ
reap_expired now limit db =
    let ids = expired_ids db now (if limit == 0 then 100 else limit) in
    (
      record db { steps = update (is_among ids) (requeue_row now) db.steps },
      count (is_among ids) db.steps,
    )
