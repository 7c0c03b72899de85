-- ===== src/Store/Purge.antt =====
-- Retention and the dead-letter queue of internal/store/queries.go: PurgeRuns, DeadLetters,
-- RetryDeadLetter and DismissDeadLetter.
pub mod Kept
pub mod Rounds
pub mod Cleared
use quacker.Prelude.{
  ℕ, zero, suc, ◌+◌, String, Bool, not, ◌&&◌, ◌||◌, List, [], ◌∷◌, none, some, map, ltb, ◌==◌,
  str_eq, if◌then◌else◌, any, all, take, drop, length, min,
}
use quacker.Table.{select, first, count, update, delete, delete_limit, order_by}
use quacker.Store.Model.{
  Status, is, is_terminal, Run, Step, Db, LogEntry, Event, Result, ok, err, not_found,
  not_dead_letter, purge_cutoff, non_terminal_purge,
}
use quacker.Store.Complete.{is_run, delete_steps}

pub record PurgeOptions : Type 0 where
  pub before : ℕ
  pub statuses : List Status
  pub queue : String
  pub exclude_dead_lettered : Bool
  pub keep_logs : Bool
  pub batch_size : ℕ

pub record PurgeResult : Type 0 where
  pub runs : ℕ
  pub steps : ℕ
  pub logs : ℕ
  pub events : ℕ

abbrev pub terminal_statuses : List Status
terminal_statuses = Status.succeeded ∷ Status.failed ∷ Status.cancelled ∷ Status.interrupted ∷ []

-- The WHERE of purgeRunBatch.
unfoldable pub is_purgeable : PurgeOptions → List Status → List Step → Run → Bool
is_purgeable o statuses steps r =
    any (λ st. is st r.status) statuses
    && (ltb 0 r.completed_at
        && (ltb r.completed_at o.before
            && ((str_eq o.queue "" || str_eq r.queue o.queue)
                && ((not o.exclude_dead_lettered || r.dead_lettered_at == 0)
                    && not (any (λ s. str_eq s.run_id r.id && is Status.running s.status) steps)))))

-- One batch: the ids selected, oldest completion first.
unfoldable pub purge_ids : PurgeOptions → List Status → ℕ → Db → List String
purge_ids o statuses batch db =
    map (λ r. r.id)
      (take batch (
        order_by (λ a b. ltb a.completed_at b.completed_at)
          (select (is_purgeable o statuses db.steps) db.runs)))

abbrev pub is_listed : List String → String → Bool
is_listed ids id = any (λ i. str_eq i id) ids

-- purgeRunBatch: the database, how many runs were selected, and the rows deleted.
pub record Purged : Type 0 where
  pub db : Db
  pub selected : ℕ
  pub result : PurgeResult

unfoldable pub purge_run_batch : PurgeOptions → List Status → ℕ → Db → Purged
purge_run_batch o statuses batch db =
    let ids = purge_ids o statuses batch db in
    let db1 = record db {
      logs = if o.keep_logs then db.logs else delete (λ l. is_listed ids l.run_id) db.logs;
    } in
    let db2 = delete_steps (λ s. is_listed ids s.run_id) db1 in
    record {
      db = record db2 { runs = delete (λ r. is_listed ids r.id) db2.runs };
      selected = length ids;
      result = record {
        runs = count (λ r. is_listed ids r.id) db.runs;
        steps = count (λ s. is_listed ids s.run_id) db.steps;
        logs = if o.keep_logs then 0 else count (λ l. is_listed ids l.run_id) db.logs;
        events = 0;
      };
    }

abbrev pub add_result : PurgeResult → PurgeResult → PurgeResult
add_result a b = record {
  runs = a.runs + b.runs;
  steps = a.steps + b.steps;
  logs = a.logs + b.logs;
  events = a.events + b.events;
}

abbrev pub no_rows_purged : PurgeResult
no_rows_purged = record { runs = 0; steps = 0; logs = 0; events = 0 }

-- The three loops of PurgeRuns, on fuel. A round that finds less than a batch is the last.
unfoldable pub purge_run_batches :
    ℕ → PurgeOptions → List Status → ℕ → Db → PurgeResult → Db × PurgeResult
purge_run_batches zero o statuses batch db res = (db, res)
purge_run_batches (suc fuel) o statuses batch db res =
    let r = purge_run_batch o statuses batch db in
    let res1 = add_result res r.result in
    let more = purge_run_batches fuel o statuses batch r.db res1 in
    if ltb r.selected batch then (r.db, res1) else more

abbrev pub is_orphan : List Run → LogEntry → Bool
is_orphan runs l = not (any (λ r. str_eq r.id l.run_id) runs)

-- purgeOrphanLogs
unfoldable pub purge_orphan_logs : ℕ → ℕ → Db → PurgeResult → Db × PurgeResult
purge_orphan_logs zero batch db res = (db, res)
purge_orphan_logs (suc fuel) batch db res =
    let n = min batch (count (is_orphan db.runs) db.logs) in
    let db1 = record db { logs = delete_limit (is_orphan db.runs) batch db.logs } in
    let res1 = record res { logs = res.logs + n } in
    let more = purge_orphan_logs fuel batch db1 res1 in if ltb n batch then (db1, res1) else more

abbrev pub is_old_event : ℕ → Event → Bool
is_old_event before e = ltb 0 e.created_at && ltb e.created_at before

-- purgeEvents
unfoldable pub purge_events : ℕ → ℕ → ℕ → Db → PurgeResult → Db × PurgeResult
purge_events zero before batch db res = (db, res)
purge_events (suc fuel) before batch db res =
    let n = min batch (count (is_old_event before) db.events) in
    let db1 = record db { events = delete_limit (is_old_event before) batch db.events } in
    let res1 = record res { events = res.events + n } in
    let more = purge_events fuel before batch db1 res1 in if ltb n batch then (db1, res1) else more

-- PurgeRuns. The fuel of each loop is the size of its table, with one round to find it empty.
unfoldable pub purge_all : PurgeOptions → List Status → ℕ → Db → Db × PurgeResult
purge_all o statuses batch db =
    let (db1, res1) = purge_run_batches (suc (length db.runs)) o statuses batch db no_rows_purged in
    let orphans : Db × PurgeResult = purge_orphan_logs (suc (length db1.logs)) batch db1 res1 in
    let (db2, res2) = (if o.keep_logs then (db1, res1) else orphans) in
    purge_events (suc (length db2.events)) o.before batch db2 res2

abbrev pub statuses_of : PurgeOptions → List Status
statuses_of o = elim o.statuses [ [] ↦ terminal_statuses | s ∷ ss ↦ s ∷ ss ]

abbrev pub batch_of : PurgeOptions → ℕ
batch_of o = if o.batch_size == 0 then 500 else o.batch_size

unfoldable pub purge_runs : PurgeOptions → Db → Result (Db × PurgeResult)
purge_runs o db =
    if o.before == 0
    then err purge_cutoff
    else (if not (all is_terminal (statuses_of o))
        then err non_terminal_purge
        else ok (purge_all o (statuses_of o) (batch_of o) db))

-- DeadLetters
unfoldable pub dead_letters : String → String → ℕ → ℕ → Db → List Run
dead_letters workflow queue limit offset db = take (if limit == 0 then 100 else limit) (
    drop offset (
      order_by (λ a b. ltb b.dead_lettered_at a.dead_lettered_at)
        (select
          (λ r.
            ltb 0 r.dead_lettered_at
            && ((str_eq workflow "" || str_eq r.workflow workflow)
                && (str_eq queue "" || str_eq r.queue queue)))
          db.runs)))

-- RetryDeadLetter: the whole run starts over.
abbrev pub reopen_step : ℕ → Step → Step
reopen_step now s = record s {
  status = elim s.depends_on [ [] ↦ Status.queued | d ∷ ds ↦ Status.blocked ];
  attempts = 0;
  error = "";
  output = [];
  started_at = 0;
  completed_at = 0;
  claimed_at = 0;
  worker_id = "";
  lease_expires_at = 0;
  resume_at = 0;
  wait_kind = "";
  wait_event = "";
  run_at = now;
}

abbrev pub reopen_run : ℕ → Run → Run
reopen_run now r = record r {
  status = Status.queued;
  attempts = 0;
  error = "";
  output = [];
  started_at = 0;
  completed_at = 0;
  run_at = now;
  dead_lettered_at = 0;
}

unfoldable pub retry_dead_letter : String → ℕ → Db → Result Db
retry_dead_letter run_id now db = elim (first (is_run run_id) db.runs) [
  | none ↦ err not_found
  | some run ↦
      (if not (is Status.failed run.status) || run.dead_lettered_at == 0
        then err not_dead_letter
        else ok (record db {
          steps = update (λ s. str_eq s.run_id run_id) (reopen_step now) db.steps;
          runs = update (is_run run_id) (reopen_run now) db.runs;
        }))
]

-- DismissDeadLetter
abbrev pub is_dead_letter : String → Run → Bool
is_dead_letter run_id r = str_eq r.id run_id && ltb 0 r.dead_lettered_at

unfoldable pub dismiss_dead_letter : String → Db → Result Db
dismiss_dead_letter run_id db =
    if count (is_dead_letter run_id) db.runs == 0
    then err not_dead_letter
    else ok (record db {
      runs = update (is_dead_letter run_id) (λ r. record r { dead_lettered_at = 0 }) db.runs;
    })
