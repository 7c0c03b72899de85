-- ===== src/Store/Transitions/Cap.antt =====
-- The per-key concurrency cap over every history of transactions.
use quacker.Prelude.{
  ℕ, ◌<◌, String, ◌≡◌, ◌≢◌, refl, sym, subst, not, ◌&&◌, ◌||◌, inl, inr, Bool-cases, Option-cases,
  List, str_eq, arith, ◌==◌, ltb, [], ◌∷◌,
}
use quacker.Table.{first, count}
use quacker.Store.Model.{Status, is, is_terminal, Step, JournalEntry, Db, Result, ok, OnOk}
use quacker.Store.Claim.KeyLimit.{IsCapped, claim_due_multi-IsCapped}
use quacker.Store.Complete.{is_run, in_run, cancel_step_row, complete_steps}
use quacker.Store.Lifecycle.{
  retry_step, is_running_step, park_step, requeue_paused_step, step_cancelled, can_cancel_step,
  cancel_run, cancel_run_tx, is_waiting_step, snooze, is_queued_step, pause_run, resume_run,
  pause_queue, resume_queue, heartbeat_worker, reap_expired, is_among, requeue_row,
}
use quacker.Prelude.{any}
use quacker.Store.Queries.{
  append_logs, upsert_cron, delete_cron, upsert_event_sub, delete_event_sub,
}
use quacker.Store.Journal.{
  append_journal, is_entry, complete_journal_once, is_running_row, suspend_row, suspend_step,
  suspend_with_journal, timeout_wait, deliver_event,
}
use quacker.Store.Purge.{retry_dead_letter, dismiss_dead_letter, reopen_step, is_dead_letter}
use quacker.Store.Transitions.{
  Transition, claim, complete, complete_batch, fail, retry, park, requeue_paused, cancel_one,
  cancel, snooze_run, pause, resume, hold, release, heartbeat, reap, append, memoize, suspend,
  suspend_entry, time_out, deliver, interrupt, recover, purge, retry_dead, dismiss_dead, log,
  set_cron, drop_cron, bind_event, unbind_event, Reach, here, next,
}
use quacker.Store.Transitions.Changes.{
  stay, set, NoStart, Changes-ids, Changes-limits, count-Changes-le,
}
use quacker.Store.Transitions.Rows.{
  Quiet, delete_ephemeral_run-Quiet, complete_step-Quiet, complete_each-Quiet,
  final_fail_step-Quiet, wake_each-Quiet, interrupt_all-Quiet, recover_interrupted-Quiet,
  purge_runs-Quiet,
}

-- What the result of an operation that did not refuse satisfies.
on_ok : {A : Type 0} (P : A → Type 0) (m : Result A) (a : A) → OnOk P m → m ≡ ok a → P a
on_ok P m a h e = subst (OnOk P) e h

cancel_run-Quiet :
    (run_id : String) (now : ℕ) (db : Db) → OnOk (λ r. Quiet db r.0) (cancel_run run_id now db)
unfolding cancel_run cancel_run_tx
cancel_run-Quiet run_id now db = elim (Option-cases (first (is_run run_id) db.runs)) [
  | inl e ↦ rw (e, cancel_run) tt
  | inr (run, e) ↦ elim (Bool-cases (is_terminal run.status)) [
    | inl t ↦ rw (e, cancel_run, t) stay
    | inr t ↦ elim (Bool-cases run.ephemeral) [
      | inl k ↦ rw (e, cancel_run, t, k) (delete_ephemeral_run-Quiet run_id db)
      | inr k ↦
          rw (e, cancel_run, t, k)
            (set (is_waiting_step run_id) (cancel_step_row now) (λ x hit. ground arith) stay)
    ]
  ]
]

snooze-Quiet :
    (run_id : String) (until : ℕ) (db : Db) → OnOk (λ d. Quiet db d) (snooze run_id until db)
unfolding snooze
snooze-Quiet run_id until db = elim (Option-cases (first (is_run run_id) db.runs)) [
  | inl e ↦ rw (e, snooze) tt
  | inr (run, e) ↦ elim (Bool-cases (is_terminal run.status)) [
    | inl t ↦ rw (e, snooze, t) tt
    | inr t ↦
        elim (Bool-cases
          (ltb 0 (count (λ s. str_eq s.run_id run_id && is Status.running s.status) db.steps))) [
            | inl k ↦ rw (e, snooze, t, k) tt
            | inr k ↦
                rw (e, snooze, t, k) (set (is_queued_step run_id) _ (λ x hit. ground arith) stay)
          ]
  ]
]

pause_run-Quiet :
    (run_id : String) (now : ℕ) (db : Db) → OnOk (λ r. Quiet db r.0) (pause_run run_id now db)
unfolding pause_run
pause_run-Quiet run_id now db = elim (Option-cases (first (is_run run_id) db.runs)) [
  | inl e ↦ rw (e, pause_run) tt
  | inr (run, e) ↦ elim (Bool-cases (is_terminal run.status)) [
    | inl t ↦ rw (e, pause_run, t) tt
    | inr t ↦ elim (Bool-cases (is Status.paused run.status)) [
      | inl k ↦ rw (e, pause_run, t, k) stay
      | inr k ↦ rw (e, pause_run, t, k) stay
    ]
  ]
]

resume_run-Quiet :
    (run_id : String) (now : ℕ) (db : Db) → OnOk (λ d. Quiet db d) (resume_run run_id now db)
unfolding resume_run
resume_run-Quiet run_id now db = elim (Option-cases (first (is_run run_id) db.runs)) [
  | inl e ↦ rw (e, resume_run) tt
  | inr (run, e) ↦ elim (Bool-cases (is_terminal run.status)) [
    | inl t ↦ rw (e, resume_run, t) tt
    | inr t ↦ elim (Bool-cases (not (is Status.paused run.status))) [
      | inl k ↦ rw (e, resume_run, t, k) stay
      | inr k ↦
          rw (e, resume_run, t, k) (set (is_queued_step run_id) _ (λ x hit. ground arith) stay)
    ]
  ]
]

suspend_step-Quiet :
    (id kind event : String) (at : ℕ) (db : Db)
    → OnOk (λ d. Quiet db d) (suspend_step id kind event at db)
unfolding suspend_step
suspend_step-Quiet id kind event at db =
    elim (Bool-cases (count (is_running_row id) db.steps == 1)) [
      | inl e ↦
          rw e (set (is_running_row id) (suspend_row kind event at) (λ x hit. ground arith) stay)
      | inr e ↦ rw e tt
    ]

append_journal-Quiet :
    (j : JournalEntry) (db d : Db) → Quiet db d → OnOk (λ d'. Quiet db d') (append_journal j d)
unfolding append_journal
append_journal-Quiet j db d q = elim (Bool-cases (any (is_entry j.step_id j.idx) d.journal)) [
  | inl e ↦ rw e tt
  | inr e ↦ rw e q
]

suspend_with_journal-Quiet :
    (j : JournalEntry) (kind event : String) (at : ℕ) (db : Db)
    → OnOk (λ d. Quiet db d) (suspend_with_journal j kind event at db)
unfolding suspend_with_journal
suspend_with_journal-Quiet j kind event at db =
    elim (Bool-cases (count (is_running_row j.step_id) db.steps == 1)) [
      | inl e ↦ rw e (
          append_journal-Quiet j db _ (
            set (is_running_row j.step_id) (suspend_row kind event at) (λ x hit. ground arith)
              stay))
      | inr e ↦ rw e tt
    ]

reopened :
    (now : ℕ) (ds : List String) (x : Step) → x.depends_on ≡ ds → NoStart x (reopen_step now x)
reopened now [] x e = record {
  id = refl;
  concurrency_key = refl;
  key_limit = refl;
  running = rw e (ground arith);
}
reopened now (d ∷ ds) x e = record {
  id = refl;
  concurrency_key = refl;
  key_limit = refl;
  running = rw e (ground arith);
}

retry_dead_letter-Quiet :
    (run_id : String) (now : ℕ) (db : Db) → OnOk (λ d. Quiet db d) (retry_dead_letter run_id now db)
unfolding retry_dead_letter
retry_dead_letter-Quiet run_id now db = elim (Option-cases (first (is_run run_id) db.runs)) [
  | inl e ↦ rw (e, retry_dead_letter) tt
  | inr (run, e) ↦
      elim (Bool-cases (not (is Status.failed run.status) || run.dead_lettered_at == 0)) [
        | inl k ↦ rw (e, retry_dead_letter, k) tt
        | inr k ↦
            rw (e, retry_dead_letter, k)
              (set (in_run run_id) (reopen_step now) (λ x hit. reopened now x.depends_on x refl)
                stay)
      ]
]

dismiss_dead_letter-Quiet :
    (run_id : String) (db : Db) → OnOk (λ d. Quiet db d) (dismiss_dead_letter run_id db)
unfolding dismiss_dead_letter
dismiss_dead_letter-Quiet run_id db =
    elim (Bool-cases (count (is_dead_letter run_id) db.runs == 0)) [
      | inl e ↦ rw e tt
      | inr e ↦ rw e stay
    ]

Quiet-IsCapped :
    {db db' : Db} (key : String) (limit : ℕ)
    → IsCapped key limit db
    → Quiet db db'
    → IsCapped key limit db'
Quiet-IsCapped key limit inv q = record {
  ids = Changes-ids q inv.ids;
  limits = Changes-limits key limit q inv.limits;
  capped = omega (arith, count-Changes-le key q, inv.capped);
}

module _ (key : String) (limit : ℕ) (named : key ≢ "") (pos : 0 < limit) (db db' : Db)
    (inv : IsCapped key limit db) where
  quiet : Quiet db db' → IsCapped key limit db'
  quiet = Quiet-IsCapped key limit inv

  moved : (d : Db) → Quiet db d → db' ≡ d → IsCapped key limit db'
  moved d q e = subst (IsCapped key limit) (sym e) (Quiet-IsCapped key limit inv q)

  answered :
      {A : Type 0} (m : Result (Db × A)) (a : A)
      → OnOk (λ r. Quiet db r.0) m
      → m ≡ ok (db', a)
      → IsCapped key limit db'
  answered m a h e = quiet (on_ok (λ r. Quiet db r.0) m (db', a) h e)

  done : (m : Result Db) → OnOk (λ d. Quiet db d) m → m ≡ ok db' → IsCapped key limit db'
  done m h e = quiet (on_ok (λ d. Quiet db d) m db' h e)

  Transition-IsCapped : Transition db db' → IsCapped key limit db'
  unfolding retry_step park_step requeue_paused_step step_cancelled pause_queue resume_queue
      heartbeat_worker reap_expired complete_journal_once timeout_wait deliver_event append_logs
      upsert_cron delete_cron upsert_event_sub delete_event_sub complete_steps
  Transition-IsCapped (claim w now qs e) =
      subst (IsCapped key limit) (sym e)
        (claim_due_multi-IsCapped w now key limit qs db named pos inv)
  Transition-IsCapped (complete c r e) = answered _ r (complete_step-Quiet c db) e
  Transition-IsCapped (complete_batch cs rs e) = answered _ rs (complete_each-Quiet db cs db) e
  Transition-IsCapped (fail id run_id msg dead now r e) =
      answered _ r (final_fail_step-Quiet id run_id msg dead now db) e
  Transition-IsCapped (retry id msg at e) =
      moved _ (set (is_running_step id) _ (λ x hit. ground arith) stay) e
  Transition-IsCapped (park id msg at e) =
      moved _ (set (is_running_step id) _ (λ x hit. ground arith) stay) e
  Transition-IsCapped (requeue_paused id e) =
      moved _ (set (is_running_step id) _ (λ x hit. ground arith) stay) e
  Transition-IsCapped (cancel_one id now e) =
      moved _ (set (can_cancel_step id) _ (λ x hit. ground arith) stay) e
  Transition-IsCapped (cancel run_id now r e) = answered _ r (cancel_run-Quiet run_id now db) e
  Transition-IsCapped (snooze_run run_id until e) = done _ (snooze-Quiet run_id until db) e
  Transition-IsCapped (pause run_id now r e) = answered _ r (pause_run-Quiet run_id now db) e
  Transition-IsCapped (resume run_id now e) = done _ (resume_run-Quiet run_id now db) e
  Transition-IsCapped (hold queue e) = moved _ stay e
  Transition-IsCapped (release queue e) = moved _ stay e
  Transition-IsCapped (heartbeat id until e) =
      moved _
        (set (λ s. str_eq s.worker_id id && is Status.running s.status) _ (λ x hit. ground arith)
          stay)
        e
  Transition-IsCapped (reap now n e) =
      moved _ (set (is_among _) (requeue_row now) (λ x hit. ground arith) stay) e
  Transition-IsCapped (append j e) = done _ (append_journal-Quiet j db db stay) e
  Transition-IsCapped (memoize id idx result msg e) = moved _ stay e
  Transition-IsCapped (suspend id kind event at e) =
      done _ (suspend_step-Quiet id kind event at db) e
  Transition-IsCapped (suspend_entry j kind event at e) =
      done _ (suspend_with_journal-Quiet j kind event at db) e
  Transition-IsCapped (time_out id idx e) = moved _ stay e
  Transition-IsCapped (deliver name payload now e) = moved _ (wake_each-Quiet _ db.steps) e
  Transition-IsCapped (interrupt id now e) = moved _ (interrupt_all-Quiet id now db) e
  Transition-IsCapped (recover keep now e) = moved _ (recover_interrupted-Quiet keep now db) e
  Transition-IsCapped (purge o r e) = answered _ r (purge_runs-Quiet o db) e
  Transition-IsCapped (retry_dead run_id now e) = done _ (retry_dead_letter-Quiet run_id now db) e
  Transition-IsCapped (log entries e) = moved _ stay e
  Transition-IsCapped (set_cron c e) = moved _ stay e
  Transition-IsCapped (drop_cron name e) = moved _ stay e
  Transition-IsCapped (bind_event s e) = moved _ stay e
  Transition-IsCapped (unbind_event event task e) = moved _ stay e
  Transition-IsCapped (dismiss_dead run_id e) = done _ (dismiss_dead_letter-Quiet run_id db) e

-- The cap of a concurrency key holds over every history of transactions that does not enqueue: if
-- step ids are unique, every step that carries the key `key` (not the empty key) has the same limit,
-- which is at least 1, and at most that many steps with the key are RUNNING, then all three hold
-- after any sequence of claims, completions, failures, retries, cancels, pauses, suspensions,
-- deliveries, reaps, sweeps and purges.
pub Reach-IsCapped :
    (key : String) (limit : ℕ) (db db' : Db)
    → key ≢ ""
    → 0 < limit
    → IsCapped key limit db
    → Reach db db'
    → IsCapped key limit db'
Reach-IsCapped key limit db db' named pos inv here = inv
Reach-IsCapped key limit db db' named pos inv (next {db1} h t) =
    Transition-IsCapped key limit named pos db1 db'
      (Reach-IsCapped key limit db db1 named pos inv h) t
