-- ===== src/Store/Transitions/Rows.antt =====
-- What the transactions other than claims do to the steps table.
use quacker.Prelude.{
  ℕ, zero, suc, ◌≡◌, refl, sym, String, Bool, true, false, not, ◌&&◌, inl, inr, Bool-cases,
  Option-cases, List, [], ◌∷◌, str_eq, arith, all, any, ◌==◌, ltb, subst, length, min,
}
use quacker.Table.{update, count, first}
use quacker.Store.Model.{Status, is, is_terminal, is_active, Run, Step, Db, OnOk, OnOk-bind}
use quacker.Store.Complete.{
  Completion, complete_step, complete_each, complete_step_tx, complete_live, complete_dead,
  complete_dag, complete_single, can_complete, succeed_row, cancel_step_row, unblock_ready,
  unblock_each, is_blocked_row, queue_step, delete_if_ephemeral, delete_ephemeral_run, in_run,
  has_succeeded, step_count, is_run, final_fail_step, has_id, fail_row, is_sibling, delete_steps,
}
use quacker.Store.Journal.{is_suspended_row, wake_row, wake_each}
use quacker.Store.Recovery.{
  delete_runs, interrupt_all, interrupt_step, is_worker_step, recover_interrupted, is_lost_step,
  recover_step,
}
use quacker.Store.Purge.{
  PurgeOptions, PurgeResult, purge_run_batch, purge_run_batches, purge_orphan_logs, purge_events,
  purge_all, purge_runs, is_listed, purge_ids, statuses_of, batch_of, is_orphan, is_old_event,
  no_rows_purged,
}
use quacker.Store.Transitions.Changes.{Changes, stay, set, drop_rows, Changes-trans, NoStart}

-- The steps table after a transaction, against the table before it.
abbrev pub Quiet : Db → Db → Type 0
Quiet db db' = Changes NoStart db.steps db'.steps

pub delete_ephemeral_run-Quiet :
    (run_id : String) (db : Db) → Quiet db (delete_ephemeral_run run_id db)
unfolding delete_ephemeral_run
delete_ephemeral_run-Quiet run_id db = drop_rows (in_run run_id) stay

delete_if_ephemeral-Quiet : (run : Run) (db : Db) → Quiet db (delete_if_ephemeral run db)
delete_if_ephemeral-Quiet run db = elim (Bool-cases run.ephemeral) [
  | inl e ↦ rw e (delete_ephemeral_run-Quiet run.id db)
  | inr e ↦ rw e stay
]

unblock_each-Quiet :
    (before : List Step) (run_id : String) (now : ℕ) (bs cur : List Step)
    → Changes NoStart cur (unblock_each before run_id now bs cur).0
unfolding unblock_each
unblock_each-Quiet before run_id now [] cur = stay
unblock_each-Quiet before run_id now (b ∷ bs) cur =
    elim (Bool-cases (all (has_succeeded before run_id) b.depends_on)) [
      | inl e ↦ rw e (
          Changes-trans (set (is_blocked_row b.id) (queue_step now) (λ x hit. ground arith) stay)
            (unblock_each-Quiet before run_id now bs _))
      | inr e ↦ rw e (unblock_each-Quiet before run_id now bs cur)
    ]

complete_dag-Quiet : (run : Run) (c : Completion) (db : Db) → Quiet db (complete_dag run c db).0
unfolding complete_dag unblock_ready
complete_dag-Quiet run c db =
    let (steps, names) = unblock_ready run.id c.name c.now db.steps in
    let queued : Changes NoStart db.steps steps =
      unblock_each-Quiet db.steps run.id c.now _ db.steps in
    elim (Bool-cases (any (λ s. in_run run.id s && is_active s.status) steps)) [
      | inl e ↦ rw e queued
      | inr e ↦ rw e (Changes-trans queued (delete_if_ephemeral-Quiet run _))
    ]

complete_live-Quiet :
    (n : ℕ) (run : Run) (c : Completion) (db : Db) → Quiet db (complete_live n run c db).0
unfolding complete_live complete_single
complete_live-Quiet n run c db =
    let done : Changes NoStart db.steps
        (update (can_complete c.step_id) (succeed_row c.output c.now) db.steps) =
      set (can_complete c.step_id) (succeed_row c.output c.now) (λ x hit. ground arith) stay in
    elim (Bool-cases (count (can_complete c.step_id) db.steps == 0)) [
      | inl e ↦ rw e stay
      | inr e ↦ elim (Bool-cases (n == 1)) [
        | inl one ↦ rw (e, one) (Changes-trans done (delete_if_ephemeral-Quiet run _))
        | inr many ↦ rw (e, many) (Changes-trans done (complete_dag-Quiet run c _))
      ]
    ]

complete_step_tx-Quiet :
    (n : ℕ) (c : Completion) (db : Db) → OnOk (λ r. Quiet db r.0) (complete_step_tx n c db)
unfolding complete_step_tx complete_dead
complete_step_tx-Quiet n c db = elim (Option-cases (first (is_run c.run_id) db.runs)) [
  | inl e ↦ rw (e, complete_step_tx) tt
  | inr (run, e) ↦ elim (Bool-cases (is_terminal run.status)) [
    | inl t ↦
        rw (e, complete_step_tx, t)
          (set (can_complete c.step_id) (cancel_step_row c.now) (λ x hit. ground arith) stay)
    | inr t ↦ rw (e, complete_step_tx, t) (complete_live-Quiet n run c db)
  ]
]

pub complete_step-Quiet : (c : Completion) (db : Db) → OnOk (λ r. Quiet db r.0) (complete_step c db)
unfolding complete_step
complete_step-Quiet c db = complete_step_tx-Quiet (step_count db c.run_id) c db

pub complete_each-Quiet :
    (start : Db) (cs : List Completion) (db : Db)
    → OnOk (λ r. Quiet db r.0) (complete_each start cs db)
unfolding complete_each
complete_each-Quiet start [] db = stay
complete_each-Quiet start (c ∷ cs) db =
    OnOk-bind (λ r. Quiet db r.0) (λ r. Quiet db r.0)
      (complete_step_tx (step_count start c.run_id) c db) _
      (complete_step_tx-Quiet (step_count start c.run_id) c db)
      (λ r h.
        OnOk-bind (λ rest. Quiet r.0 rest.0) (λ rest. Quiet db rest.0) (complete_each start cs r.0)
          _ (complete_each-Quiet start cs r.0) (λ rest k. Changes-trans h k))

pub final_fail_step-Quiet :
    (step_id run_id msg : String) (dead_letter : Bool) (now : ℕ) (db : Db)
    → OnOk (λ r. Quiet db r.0) (final_fail_step step_id run_id msg dead_letter now db)
unfolding final_fail_step
final_fail_step-Quiet step_id run_id msg dead_letter now db =
    elim (Option-cases (first (is_run run_id) db.runs)) [
      | inl e ↦ rw (e, final_fail_step) tt
      | inr (run, e) ↦
          rw (e, final_fail_step)
            (Changes-trans
              (set (is_sibling run_id step_id) (cancel_step_row now) (λ x hit. ground arith)
                (set (has_id step_id) (fail_row msg now) (λ x hit. ground arith) stay))
              (delete_if_ephemeral-Quiet run _))
    ]

pub wake_each-Quiet :
    (ids : List String) (steps : List Step) → Changes NoStart steps (wake_each ids steps)
unfolding wake_each
wake_each-Quiet [] steps = stay
wake_each-Quiet (id ∷ ids) steps =
    Changes-trans (set (is_suspended_row id) wake_row (λ x hit. ground arith) stay)
      (wake_each-Quiet ids _)

pub delete_runs-Quiet : (ids : List String) (db : Db) → Quiet db (delete_runs ids db)
unfolding delete_runs
delete_runs-Quiet [] db = stay
delete_runs-Quiet (id ∷ ids) db =
    Changes-trans (delete_ephemeral_run-Quiet id db) (delete_runs-Quiet ids _)

pub interrupt_all-Quiet :
    (worker_id : String) (now : ℕ) (db : Db) → Quiet db (interrupt_all worker_id now db)
unfolding interrupt_all
interrupt_all-Quiet worker_id now db = elim (Bool-cases (str_eq worker_id "")) [
  | inl e ↦ rw e (
      set (λ s. is Status.running s.status) (interrupt_step now) (λ x hit. ground arith)
        (delete_runs-Quiet _ db))
  | inr e ↦ rw e (set (is_worker_step worker_id) _ (λ x hit. ground arith) (delete_runs-Quiet _ db))
]

pub recover_interrupted-Quiet :
    (keep : Bool) (now : ℕ) (db : Db) → Quiet db (recover_interrupted keep now db)
unfolding recover_interrupted
recover_interrupted-Quiet keep now db =
    set (is_lost_step keep) (recover_step keep now) (recovered keep) (delete_runs-Quiet _ db)
  where
    recovered :
        (keep : Bool) (x : Step) → is_lost_step keep x ≡ true → NoStart x (recover_step keep now x)
    recovered true x hit = ground arith
    recovered false x hit = ground arith

purge_run_batch-Quiet :
    (o : PurgeOptions) (statuses : List Status) (batch : ℕ) (db : Db)
    → Quiet db (purge_run_batch o statuses batch db).db
unfolding purge_run_batch delete_steps
purge_run_batch-Quiet o statuses batch db =
    drop_rows (λ s. is_listed (purge_ids o statuses batch db) s.run_id) stay

purge_run_batches-Quiet :
    (fuel : ℕ) (o : PurgeOptions) (statuses : List Status) (batch : ℕ) (db : Db) (res : PurgeResult)
    → Quiet db (purge_run_batches fuel o statuses batch db res).0
unfolding purge_run_batches
purge_run_batches-Quiet zero o statuses batch db res = stay
purge_run_batches-Quiet (suc fuel) o statuses batch db res =
    let r = purge_run_batch o statuses batch db in
    let once : Quiet db r.db = purge_run_batch-Quiet o statuses batch db in
    elim (Bool-cases (ltb r.selected batch)) [
      | inl e ↦ rw e once
      | inr e ↦ rw e (Changes-trans once (purge_run_batches-Quiet fuel o statuses batch r.db _))
    ]

-- The loops over the other tables leave the steps as they are.
purge_orphan_logs-steps :
    (fuel batch : ℕ) (db : Db) (res : PurgeResult)
    → (purge_orphan_logs fuel batch db res).0.steps ≡ db.steps
unfolding purge_orphan_logs
purge_orphan_logs-steps zero batch db res = refl
purge_orphan_logs-steps (suc fuel) batch db res =
    elim (Bool-cases (ltb (min batch (count (is_orphan db.runs) db.logs)) batch)) [
      | inl e ↦ rw e refl
      | inr e ↦ rw e (purge_orphan_logs-steps fuel batch _ _)
    ]

purge_events-steps :
    (fuel before batch : ℕ) (db : Db) (res : PurgeResult)
    → (purge_events fuel before batch db res).0.steps ≡ db.steps
unfolding purge_events
purge_events-steps zero before batch db res = refl
purge_events-steps (suc fuel) before batch db res =
    elim (Bool-cases (ltb (min batch (count (is_old_event before) db.events)) batch)) [
      | inl e ↦ rw e refl
      | inr e ↦ rw e (purge_events-steps fuel before batch _ _)
    ]

pub purge_runs-Quiet : (o : PurgeOptions) (db : Db) → OnOk (λ r. Quiet db r.0) (purge_runs o db)
unfolding purge_runs purge_all
purge_runs-Quiet o db = elim (Bool-cases (o.before == 0)) [
  | inl e ↦ rw e tt
  | inr e ↦ elim (Bool-cases (not (all is_terminal (statuses_of o)))) [
    | inl k ↦ rw (e, k) tt
    | inr k ↦ rw (e, k) (purged (statuses_of o) (batch_of o))
  ]
]
  where
    events_last :
        (statuses : List Status) (batch : ℕ) (r : Db × PurgeResult)
        → Quiet db r.0
        → Quiet db (purge_events (suc (length r.0.events)) o.before batch r.0 r.1).0
    events_last statuses batch r q =
        subst (Changes NoStart db.steps)
          (sym (purge_events-steps (suc (length r.0.events)) o.before batch r.0 r.1)) q

    purged : (statuses : List Status) (batch : ℕ) → Quiet db (purge_all o statuses batch db).0
    purged statuses batch =
        let first_loop =
          purge_run_batches-Quiet (suc (length db.runs)) o statuses batch db no_rows_purged in
        elim (Bool-cases o.keep_logs) [
          | inl e ↦ simp e (events_last statuses batch _ first_loop)
          | inr e ↦ simp e (
              events_last statuses batch _ (
                subst (Changes NoStart db.steps) (sym (purge_orphan_logs-steps _ batch _ _))
                  first_loop))
        ]
