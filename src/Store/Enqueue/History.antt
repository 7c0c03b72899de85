-- ===== src/Store/Enqueue/History.antt =====
-- Every history of commits, enqueues included.
use quacker.Prelude.{
  ℕ, ◌≡◌, refl, sym, subst, String, Bool, false, not, ◌&&◌, ◌||◌, inl, inr, Bool-cases,
  Option-cases, List, Memᴰ, str_eq, arith, ltb, ◌==◌,
}
use quacker.Table.{count, first}
use quacker.Store.Model.{Status, is, is_terminal, JournalEntry, Db, Result, ok, OnOk, OnOk-bind}
use quacker.Store.Complete.{is_run, complete_steps}
use quacker.Store.Lifecycle.{
  retry_step, park_step, requeue_paused_step, step_cancelled, cancel_run, cancel_run_tx, cancel_row,
  snooze, pause_run, resume_run, pause_queue, resume_queue, heartbeat_worker, reap_expired,
}
use quacker.Prelude.{any}
use quacker.Store.Queries.{
  append_logs, upsert_cron, delete_cron, upsert_event_sub, delete_event_sub,
}
use quacker.Store.Journal.{
  append_journal, is_entry, complete_journal_once, is_running_row, suspend_step,
  suspend_with_journal, timeout_wait, deliver_event,
}
use quacker.Store.Purge.{retry_dead_letter, dismiss_dead_letter, is_dead_letter, reopen_run}
use quacker.Store.Enqueue.{Job, Enqueue, create_jobs, fire_cron, is_occurrence, insert_job}
use quacker.Store.Enqueue.Holders.{HasLiveKeys, RunChanges-HasLiveKeys}
use quacker.Store.Enqueue.Unique.{create_jobs-HasLiveKeys, insert_job-HasLiveKeys}
use quacker.Store.Transitions.{
  Transition, claim, complete, complete_batch, fail, retry, park, requeue_paused, cancel_one,
  cancel, snooze_run, pause, resume, hold, release, heartbeat, reap, append, memoize, suspend,
  suspend_entry, time_out, deliver, interrupt, recover, purge, retry_dead, dismiss_dead, log,
  set_cron, drop_cron, bind_event, unbind_event,
}
use quacker.Store.Transitions.Keys.{
  stay, set, freed, goes_on, KeepsKeys, delete_ephemeral_run-KeepsKeys, claim_due_multi-KeepsKeys,
  complete_step-KeepsKeys, complete_each-KeepsKeys, final_fail_step-KeepsKeys,
  interrupt_all-KeepsKeys, recover_interrupted-KeepsKeys, purge_runs-KeepsKeys,
}

-- Sequences of committed transactions; the runs that are enqueued have not ended.
pub data History (db : Db) : Db → Type 0 where
  start : History db db
  commit : {db1 db2 : Db} → History db db1 → Transition db1 db2 → History db db2
  enqueue :
      {db1 : Db} (now : ℕ) (js : List Job) (e : Enqueue)
      → History db db1
      → ((j : Job) → Memᴰ j js → is_terminal j.run.status ≡ false)
      → create_jobs now js db1 ≡ ok e
      → History db e.db
  fire :
      {db1 db2 : Db} (name : String) (expect next : ℕ) (j : Job) (fired : Bool)
      → History db db1
      → is_terminal j.run.status ≡ false
      → fire_cron name expect next j db1 ≡ ok (db2, fired)
      → History db db2

cancel_run-KeepsKeys :
    (run_id : String) (now : ℕ) (db : Db) → OnOk (λ r. KeepsKeys db r.0) (cancel_run run_id now db)
unfolding cancel_run cancel_run_tx
cancel_run-KeepsKeys run_id now db = elim (Option-cases (first (is_run run_id) db.runs)) [
  | inl e ↦ rw (e, cancel_run) tt
  | inr (run, e) ↦ elim (Bool-cases (is_terminal run.status)) [
    | inl t ↦ rw (e, cancel_run, t) stay
    | inr t ↦ elim (Bool-cases run.ephemeral) [
      | inl k ↦ rw (e, cancel_run, t, k) (delete_ephemeral_run-KeepsKeys run_id db)
      | inr k ↦
          rw (e, cancel_run, t, k)
            (set (is_run run_id) (cancel_row now) (λ x. freed refl refl) stay)
    ]
  ]
]

snooze-KeepsKeys :
    (run_id : String) (until : ℕ) (db : Db) → OnOk (λ d. KeepsKeys db d) (snooze run_id until db)
unfolding snooze
snooze-KeepsKeys run_id until db = elim (Option-cases (first (is_run run_id) db.runs)) [
  | inl e ↦ rw (e, snooze) tt
  | inr (run, e) ↦ elim (Bool-cases (is_terminal run.status)) [
    | inl t ↦ rw (e, snooze, t) tt
    | inr t ↦
        elim (Bool-cases
          (ltb 0 (count (λ s. str_eq s.run_id run_id && is Status.running s.status) db.steps))) [
            | inl k ↦ rw (e, snooze, t, k) tt
            | inr k ↦
                rw (e, snooze, t, k) (set (is_run run_id) _ (λ x. goes_on refl refl (λ b. b)) stay)
          ]
  ]
]

pause_run-KeepsKeys :
    (run_id : String) (now : ℕ) (db : Db) → OnOk (λ r. KeepsKeys db r.0) (pause_run run_id now db)
unfolding pause_run
pause_run-KeepsKeys run_id now db = elim (Option-cases (first (is_run run_id) db.runs)) [
  | inl e ↦ rw (e, pause_run) tt
  | inr (run, e) ↦ elim (Bool-cases (is_terminal run.status)) [
    | inl t ↦ rw (e, pause_run, t) tt
    | inr t ↦ elim (Bool-cases (is Status.paused run.status)) [
      | inl k ↦ rw (e, pause_run, t, k) stay
      | inr k ↦
          rw (e, pause_run, t, k)
            (set (is_run run_id) _ (λ x. goes_on refl refl (λ bad. absurd (ground arith))) stay)
    ]
  ]
]

resume_run-KeepsKeys :
    (run_id : String) (now : ℕ) (db : Db) → OnOk (λ d. KeepsKeys db d) (resume_run run_id now db)
unfolding resume_run
resume_run-KeepsKeys run_id now db = elim (Option-cases (first (is_run run_id) db.runs)) [
  | inl e ↦ rw (e, resume_run) tt
  | inr (run, e) ↦ elim (Bool-cases (is_terminal run.status)) [
    | inl t ↦ rw (e, resume_run, t) tt
    | inr t ↦ elim (Bool-cases (not (is Status.paused run.status))) [
      | inl k ↦ rw (e, resume_run, t, k) stay
      | inr k ↦
          rw (e, resume_run, t, k)
            (set (is_run run_id) _ (λ x. goes_on refl refl (λ bad. absurd (ground arith))) stay)
    ]
  ]
]

suspend_step-KeepsKeys :
    (id kind event : String) (at : ℕ) (db : Db)
    → OnOk (λ d. KeepsKeys db d) (suspend_step id kind event at db)
unfolding suspend_step
suspend_step-KeepsKeys id kind event at db =
    elim (Bool-cases (count (is_running_row id) db.steps == 1)) [
      | inl e ↦ rw e stay
      | inr e ↦ rw e tt
    ]

append_journal-KeepsKeys :
    (j : JournalEntry) (db d : Db)
    → KeepsKeys db d
    → OnOk (λ d'. KeepsKeys db d') (append_journal j d)
unfolding append_journal
append_journal-KeepsKeys j db d q = elim (Bool-cases (any (is_entry j.step_id j.idx) d.journal)) [
  | inl e ↦ rw e tt
  | inr e ↦ rw e q
]

suspend_with_journal-KeepsKeys :
    (j : JournalEntry) (kind event : String) (at : ℕ) (db : Db)
    → OnOk (λ d. KeepsKeys db d) (suspend_with_journal j kind event at db)
unfolding suspend_with_journal
suspend_with_journal-KeepsKeys j kind event at db =
    elim (Bool-cases (count (is_running_row j.step_id) db.steps == 1)) [
      | inl e ↦ rw e (append_journal-KeepsKeys j db _ stay)
      | inr e ↦ rw e tt
    ]

retry_dead_letter-KeepsKeys :
    (run_id : String) (now : ℕ) (db : Db)
    → OnOk (λ d. KeepsKeys db d) (retry_dead_letter run_id now db)
unfolding retry_dead_letter
retry_dead_letter-KeepsKeys run_id now db = elim (Option-cases (first (is_run run_id) db.runs)) [
  | inl e ↦ rw (e, retry_dead_letter) tt
  | inr (run, e) ↦
      elim (Bool-cases (not (is Status.failed run.status) || run.dead_lettered_at == 0)) [
        | inl k ↦ rw (e, retry_dead_letter, k) tt
        | inr k ↦
            rw (e, retry_dead_letter, k)
              (set (is_run run_id) (reopen_run now)
                (λ x. goes_on refl refl (λ bad. absurd (ground arith))) stay)
      ]
]

dismiss_dead_letter-KeepsKeys :
    (run_id : String) (db : Db) → OnOk (λ d. KeepsKeys db d) (dismiss_dead_letter run_id db)
unfolding dismiss_dead_letter
dismiss_dead_letter-KeepsKeys run_id db =
    elim (Bool-cases (count (is_dead_letter run_id) db.runs == 0)) [
      | inl e ↦ rw e tt
      | inr e ↦ rw e (set (is_dead_letter run_id) _ (λ x. goes_on refl refl (λ b. b)) stay)
    ]

fire_cron-HasLiveKeys :
    (name : String) (expect next : ℕ) (j : Job) (db : Db)
    → is_terminal j.run.status ≡ false
    → HasLiveKeys db.runs
    → OnOk (λ r. HasLiveKeys r.0.runs) (fire_cron name expect next j db)
unfolding fire_cron
fire_cron-HasLiveKeys name expect next j db live h =
    elim (Bool-cases (count (is_occurrence name expect) db.crons == 1)) [
      | inl e ↦ rw e (
          OnOk-bind (λ d. HasLiveKeys d.runs) (λ r. HasLiveKeys r.0.runs) (insert_job j _) _
            (insert_job-HasLiveKeys j _ live h) (λ d k. k))
      | inr e ↦ rw e h
    ]

module _ (db db' : Db) (inv : HasLiveKeys db.runs) where
  moved : (d : Db) → KeepsKeys db d → db' ≡ d → HasLiveKeys db'.runs
  moved d q e = subst (λ x. HasLiveKeys x.runs) (sym e) (RunChanges-HasLiveKeys q inv)

  answered :
      {A : Type 0} (m : Result (Db × A)) (a : A)
      → OnOk (λ r. KeepsKeys db r.0) m
      → m ≡ ok (db', a)
      → HasLiveKeys db'.runs
  answered m a h e =
      let q : KeepsKeys db db' = subst (OnOk (λ r. KeepsKeys db r.0)) e h in
      RunChanges-HasLiveKeys q inv

  done : (m : Result Db) → OnOk (λ d. KeepsKeys db d) m → m ≡ ok db' → HasLiveKeys db'.runs
  done m h e =
      let q : KeepsKeys db db' = subst (OnOk (λ d. KeepsKeys db d)) e h in
      RunChanges-HasLiveKeys q inv

  Transition-HasLiveKeys : Transition db db' → HasLiveKeys db'.runs
  unfolding retry_step park_step requeue_paused_step step_cancelled pause_queue resume_queue
      heartbeat_worker reap_expired complete_journal_once timeout_wait deliver_event append_logs
      upsert_cron delete_cron upsert_event_sub delete_event_sub complete_steps
  Transition-HasLiveKeys (claim w now qs e) = moved _ (claim_due_multi-KeepsKeys w now qs db) e
  Transition-HasLiveKeys (complete c r e) = answered _ r (complete_step-KeepsKeys c db) e
  Transition-HasLiveKeys (complete_batch cs rs e) =
      answered _ rs (complete_each-KeepsKeys db cs db) e
  Transition-HasLiveKeys (fail id run_id msg dead now r e) =
      answered _ r (final_fail_step-KeepsKeys id run_id msg dead now db) e
  Transition-HasLiveKeys (retry id msg at e) = moved _ stay e
  Transition-HasLiveKeys (park id msg at e) = moved _ stay e
  Transition-HasLiveKeys (requeue_paused id e) = moved _ stay e
  Transition-HasLiveKeys (cancel_one id now e) = moved _ stay e
  Transition-HasLiveKeys (cancel run_id now r e) =
      answered _ r (cancel_run-KeepsKeys run_id now db) e
  Transition-HasLiveKeys (snooze_run run_id until e) = done _ (snooze-KeepsKeys run_id until db) e
  Transition-HasLiveKeys (pause run_id now r e) = answered _ r (pause_run-KeepsKeys run_id now db) e
  Transition-HasLiveKeys (resume run_id now e) = done _ (resume_run-KeepsKeys run_id now db) e
  Transition-HasLiveKeys (hold queue e) = moved _ stay e
  Transition-HasLiveKeys (release queue e) = moved _ stay e
  Transition-HasLiveKeys (heartbeat id until e) = moved _ stay e
  Transition-HasLiveKeys (reap now n e) = moved _ stay e
  Transition-HasLiveKeys (append j e) = done _ (append_journal-KeepsKeys j db db stay) e
  Transition-HasLiveKeys (memoize id idx result msg e) = moved _ stay e
  Transition-HasLiveKeys (suspend id kind event at e) =
      done _ (suspend_step-KeepsKeys id kind event at db) e
  Transition-HasLiveKeys (suspend_entry j kind event at e) =
      done _ (suspend_with_journal-KeepsKeys j kind event at db) e
  Transition-HasLiveKeys (time_out id idx e) = moved _ stay e
  Transition-HasLiveKeys (deliver name payload now e) = moved _ stay e
  Transition-HasLiveKeys (interrupt id now e) = moved _ (interrupt_all-KeepsKeys id now db) e
  Transition-HasLiveKeys (recover keep now e) =
      moved _ (recover_interrupted-KeepsKeys keep now db) e
  Transition-HasLiveKeys (purge o r e) = answered _ r (purge_runs-KeepsKeys o db) e
  Transition-HasLiveKeys (retry_dead run_id now e) =
      done _ (retry_dead_letter-KeepsKeys run_id now db) e
  Transition-HasLiveKeys (log entries e) = moved _ stay e
  Transition-HasLiveKeys (set_cron c e) = moved _ stay e
  Transition-HasLiveKeys (drop_cron name e) = moved _ stay e
  Transition-HasLiveKeys (bind_event s e) = moved _ stay e
  Transition-HasLiveKeys (unbind_event event task e) = moved _ stay e
  Transition-HasLiveKeys (dismiss_dead run_id e) =
      done _ (dismiss_dead_letter-KeepsKeys run_id db) e

-- Unique jobs are unique over every history of commits, enqueues and crons included: if at first at most
-- one run holds each unique key of a workflow and no run that has ended holds one, then this is so after
-- any sequence of committed transactions whose enqueued runs have not ended.
pub History-HasLiveKeys :
    (db db' : Db) → HasLiveKeys db.runs → History db db' → HasLiveKeys db'.runs
History-HasLiveKeys db db' inv start = inv
History-HasLiveKeys db db' inv (commit {db1} h t) =
    Transition-HasLiveKeys db1 db' (History-HasLiveKeys db db1 inv h) t
History-HasLiveKeys db db' inv (enqueue {db1} now js e h live r) =
    subst (OnOk (λ x. HasLiveKeys x.db.runs)) r
      (create_jobs-HasLiveKeys now js db1 live (History-HasLiveKeys db db1 inv h))
History-HasLiveKeys db db' inv (fire {db1} name expect next j fired h live r) =
    subst (OnOk (λ x. HasLiveKeys x.0.runs)) r
      (fire_cron-HasLiveKeys name expect next j db1 live (History-HasLiveKeys db db1 inv h))
