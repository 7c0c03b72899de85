-- ===== src/Store/Transitions.antt =====
-- The write transactions of internal/store as a step relation: whatever interleaving the engine's
-- goroutines and the other nodes produce, each commit is one of these steps.
pub mod Changes
pub mod Rows
pub mod Cap
pub mod Keys
use quacker.Prelude.{ℕ, String, Bool, ◌≡◌, List}
use quacker.Store.Model.{Bytes, Step, JournalEntry, LogEntry, Cron, EventSub, Db, ok}
use quacker.Store.Claim.{Worker, QueueClaim, claim_due_multi}
use quacker.Store.Complete.{
  Completion, CompleteResult, complete_step, complete_steps, final_fail_step,
}
use quacker.Store.Lifecycle.{
  Cancelled, retry_step, park_step, requeue_paused_step, step_cancelled, cancel_run, snooze,
  pause_run, resume_run, pause_queue, resume_queue, heartbeat_worker, reap_expired,
}
use quacker.Store.Journal.{
  append_journal, complete_journal_once, suspend_step, suspend_with_journal, timeout_wait,
  deliver_event,
}
use quacker.Store.Queries.{
  append_logs, upsert_cron, delete_cron, upsert_event_sub, delete_event_sub,
}
use quacker.Store.Recovery.{interrupt_all, recover_interrupted}
use quacker.Store.Purge.{
  PurgeOptions, PurgeResult, purge_runs, retry_dead_letter, dismiss_dead_letter,
}

-- The committed transactions other than enqueues.
pub data Transition (db db' : Db) : Type 0 where
  claim :
      (w : Worker) (now : ℕ) (qs : List QueueClaim)
      → db' ≡ (claim_due_multi w now db qs).0
      → Transition db db'
  complete :
      (c : Completion) (r : CompleteResult) → complete_step c db ≡ ok (db', r) → Transition db db'
  complete_batch :
      (cs : List Completion) (rs : List CompleteResult)
      → complete_steps cs db ≡ ok (db', rs)
      → Transition db db'
  fail :
      (step_id run_id msg : String) (dead_letter : Bool) (now : ℕ) (r : CompleteResult)
      → final_fail_step step_id run_id msg dead_letter now db ≡ ok (db', r)
      → Transition db db'
  retry :
      (id msg : String) (next_run_at : ℕ)
      → db' ≡ retry_step id msg next_run_at db
      → Transition db db'
  park :
      (id msg : String) (next_run_at : ℕ)
      → db' ≡ park_step id msg next_run_at db
      → Transition db db'
  requeue_paused : (id : String) → db' ≡ requeue_paused_step id db → Transition db db'
  cancel_one : (id : String) (now : ℕ) → db' ≡ step_cancelled id now db → Transition db db'
  cancel :
      (run_id : String) (now : ℕ) (r : Cancelled)
      → cancel_run run_id now db ≡ ok (db', r)
      → Transition db db'
  snooze_run : (run_id : String) (until : ℕ) → snooze run_id until db ≡ ok db' → Transition db db'
  pause :
      (run_id : String) (now : ℕ) (r : Cancelled)
      → pause_run run_id now db ≡ ok (db', r)
      → Transition db db'
  resume : (run_id : String) (now : ℕ) → resume_run run_id now db ≡ ok db' → Transition db db'
  hold : (queue : String) → db' ≡ pause_queue queue db → Transition db db'
  release : (queue : String) → db' ≡ resume_queue queue db → Transition db db'
  heartbeat :
      (worker_id : String) (lease_until : ℕ)
      → db' ≡ heartbeat_worker worker_id lease_until db
      → Transition db db'
  reap : (now limit : ℕ) → db' ≡ (reap_expired now limit db).0 → Transition db db'
  append : (e : JournalEntry) → append_journal e db ≡ ok db' → Transition db db'
  memoize :
      (id : String) (idx : ℕ) (result : Bytes) (msg : String)
      → db' ≡ complete_journal_once id idx result msg db
      → Transition db db'
  suspend :
      (id kind event : String) (resume_at : ℕ)
      → suspend_step id kind event resume_at db ≡ ok db'
      → Transition db db'
  suspend_entry :
      (e : JournalEntry) (kind event : String) (resume_at : ℕ)
      → suspend_with_journal e kind event resume_at db ≡ ok db'
      → Transition db db'
  time_out : (id : String) (idx : ℕ) → db' ≡ (timeout_wait id idx db).0 → Transition db db'
  deliver :
      (name : String) (payload : Bytes) (now : ℕ)
      → db' ≡ (deliver_event name payload now db).0
      → Transition db db'
  interrupt :
      (worker_id : String) (now : ℕ) → db' ≡ interrupt_all worker_id now db → Transition db db'
  recover : (keep : Bool) (now : ℕ) → db' ≡ recover_interrupted keep now db → Transition db db'
  purge : (o : PurgeOptions) (r : PurgeResult) → purge_runs o db ≡ ok (db', r) → Transition db db'
  retry_dead :
      (run_id : String) (now : ℕ) → retry_dead_letter run_id now db ≡ ok db' → Transition db db'
  log : (entries : List LogEntry) → db' ≡ append_logs entries db → Transition db db'
  set_cron : (c : Cron) → db' ≡ upsert_cron c db → Transition db db'
  drop_cron : (name : String) → db' ≡ delete_cron name db → Transition db db'
  bind_event : (s : EventSub) → db' ≡ upsert_event_sub s db → Transition db db'
  unbind_event : (event task : String) → db' ≡ delete_event_sub event task db → Transition db db'
  dismiss_dead : (run_id : String) → dismiss_dead_letter run_id db ≡ ok db' → Transition db db'

-- A history of commits.
pub data Reach (db : Db) : Db → Type 0 where
  here : Reach db db
  next : {db1 db2 : Db} → Reach db db1 → Transition db1 db2 → Reach db db2
