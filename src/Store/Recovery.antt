-- ===== src/Store/Recovery.antt =====
-- The sweeps over the whole database: InterruptAll of internal/store/store.go at shutdown and
-- recoverInterrupted of internal/store/schema.go at boot.
use quacker.Prelude.{
  ℕ, String, Bool, true, false, not, ◌&&◌, ◌||◌, List, [], ◌∷◌, map, str_eq, if◌then◌else◌, any,
}
use quacker.Table.{select, update}
use quacker.Store.Model.{Status, is, is_active, Run, Step, Db}
use quacker.Store.Complete.{delete_ephemeral_run}

unfoldable pub delete_runs : List String → Db → Db
delete_runs [] db = db
delete_runs (id ∷ ids) db = delete_runs ids (delete_ephemeral_run id db)

abbrev pub interrupt_step : ℕ → Step → Step
interrupt_step now s = record s { status = Status.interrupted; completed_at = now }

abbrev pub interrupt_run : ℕ → Run → Run
interrupt_run now r = record r { status = Status.interrupted; completed_at = now; unique_key = "" }

abbrev pub is_running_run : Run → Bool
is_running_run r = is Status.running r.status

-- InterruptAll with an empty worker id: one process owns the database.
unfoldable pub interrupt_everything : ℕ → Db → Db
interrupt_everything now db =
    let doomed = map (λ r. r.id) (select (λ r. is_running_run r && r.ephemeral) db.runs) in
    let db1 = delete_runs doomed db in
    record db1 {
      steps = update (λ s. is Status.running s.status) (interrupt_step now) db1.steps;
      runs = update is_running_run (interrupt_run now) db1.runs;
    }

-- InterruptAll with a worker id: only the steps of that worker, and the runs that they leave idle.
abbrev pub is_worker_step : String → Step → Bool
is_worker_step worker_id s = is Status.running s.status && str_eq s.worker_id worker_id

abbrev pub has_worker_step : String → List Step → Run → Bool
has_worker_step worker_id steps r =
    any (λ s. is_worker_step worker_id s && str_eq s.run_id r.id) steps

unfoldable pub interrupt_worker : String → ℕ → Db → Db
interrupt_worker worker_id now db =
    let doomed =
      map (λ r. r.id) (select (λ r. r.ephemeral && has_worker_step worker_id db.steps r) db.runs) in
    let db1 = delete_runs doomed db in
    let steps =
      update (is_worker_step worker_id)
        (λ s. record s {
          status = Status.interrupted;
          completed_at = now;
          worker_id = "";
          lease_expires_at = 0;
        })
        db1.steps in
    record db1 {
      steps = steps;
      runs =
          update
            (λ r.
              is_running_run r
              && (not r.ephemeral
                  && (has_worker_step worker_id db.steps r
                      && not (any (λ s. str_eq s.run_id r.id && is_active s.status) steps))))
            (interrupt_run now) db1.runs;
    }

-- InterruptAll
unfoldable pub interrupt_all : String → ℕ → Db → Db
unfolding interrupt_everything interrupt_worker
interrupt_all worker_id now db =
    if str_eq worker_id "" then interrupt_everything now db else interrupt_worker worker_id now db

abbrev pub is_lost : Status → Bool
is_lost s = is Status.running s || is Status.interrupted s

abbrev pub is_lost_step : Bool → Step → Bool
is_lost_step keep s = is_lost s.status || not keep && is Status.suspended s.status

abbrev pub recover_step : Bool → ℕ → Step → Step
recover_step true now s = record s {
  status = Status.queued;
  run_at = now;
  resume_at = 0;
  wait_kind = "";
  wait_event = "";
}
recover_step false now s = record s {
  status = Status.failed;
  run_at = now;
  error = "interrupted by restart";
  completed_at = now;
  resume_at = 0;
  wait_kind = "";
  wait_event = "";
}

abbrev pub recover_run : Bool → ℕ → Run → Run
recover_run true now r = record r { status = Status.queued; run_at = now }
recover_run false now r = record r {
  status = Status.failed;
  run_at = now;
  error = "interrupted by restart";
  completed_at = now;
  unique_key = "";
}

-- recoverInterrupted
unfoldable pub recover_interrupted : Bool → ℕ → Db → Db
recover_interrupted keep now db =
    let db1 = delete_runs (map (λ r. r.id) (select (λ r. r.ephemeral) db.runs)) db in
    record db1 {
      steps = update (is_lost_step keep) (recover_step keep now) db1.steps;
      runs = update (λ r. is_lost r.status) (recover_run keep now) db1.runs;
    }
