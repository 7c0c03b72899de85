-- ===== src/Store/Transitions/Keys.antt =====
-- What the transactions do to the unique keys of runs.
use quacker.Prelude.{
  ℕ, zero, suc, ◌≡◌, refl, sym, subst, String, Bool, true, false, not, ◌&&◌, inl, inr, ◌⊎◌,
  Bool-cases, Option-cases, List, [], ◌∷◌, str_eq, arith, all, any, ◌==◌, ltb, length, min,
}
use quacker.Table.{update, delete, count, first}
use quacker.Store.Model.{Status, is, is_terminal, is_active, Run, Step, Db, OnOk, OnOk-bind}
use quacker.Store.Claim.{
  Worker, QueueClaim, claim_step, still_claimable, start_run, claim_due_multi,
}
use quacker.Store.Claim.Loop.{claim_due_multi_inv}
use quacker.Store.Complete.{
  Completion, complete_step, complete_each, complete_step_tx, complete_live, complete_dead,
  complete_dag, complete_single, can_complete, is_live_run, end_run, run_outcome, last_output,
  unblock_ready, delete_if_ephemeral, fail_run, delete_ephemeral_run, delete_steps, in_run,
  step_count, is_run, final_fail_step,
}
use quacker.Store.Recovery.{
  delete_runs, interrupt_all, interrupt_run, is_running_run, recover_interrupted, is_lost,
  recover_run,
}
use quacker.Store.Purge.{
  PurgeOptions, PurgeResult, purge_run_batch, purge_run_batches, purge_orphan_logs, purge_events,
  purge_all, purge_runs, is_listed, purge_ids, statuses_of, batch_of, is_orphan, is_old_event,
  no_rows_purged,
}

-- The run keeps its workflow, and frees its unique key or holds it on without having ended.
pub record Frees (r t : Run) : Type 0 where
  pub workflow : t.workflow ≡ r.workflow
  pub key :
      (t.unique_key ≡ "")
      ⊎ ((t.unique_key ≡ r.unique_key)
          × (is_terminal t.status ≡ true → is_terminal r.status ≡ true))

-- Rows of the runs table are set or go.
pub data RunChanges (xs : List Run) : List Run → Type 0 where
  stay : RunChanges xs xs
  set :
      {ys : List Run} (q : Run → Bool) (f : Run → Run)
      → ((x : Run) → Frees x (f x))
      → RunChanges xs ys
      → RunChanges xs (update q f ys)
  drop_rows : {ys : List Run} (p : Run → Bool) → RunChanges xs ys → RunChanges xs (delete p ys)

pub RunChanges-trans :
    {xs ys zs : List Run} → RunChanges xs ys → RunChanges ys zs → RunChanges xs zs
RunChanges-trans a stay = a
RunChanges-trans a (set q f h b) = set q f h (RunChanges-trans a b)
RunChanges-trans a (drop_rows p b) = drop_rows p (RunChanges-trans a b)

-- A row that is freed, and one that keeps its key under a status that is not terminal.
pub freed : {r t : Run} → t.workflow ≡ r.workflow → t.unique_key ≡ "" → Frees r t
freed same e = record { workflow = same; key = inl e }

pub goes_on :
    {r t : Run}
    → t.workflow ≡ r.workflow
    → t.unique_key ≡ r.unique_key
    → (is_terminal t.status ≡ true → is_terminal r.status ≡ true)
    → Frees r t
goes_on same k live = record { workflow = same; key = inr (k, live) }

-- The runs table after a transaction, against the table before it.
abbrev pub KeepsKeys : Db → Db → Type 0
KeepsKeys db db' = RunChanges db.runs db'.runs

claim_step-KeepsKeys :
    (w : Worker) (now : ℕ) (db : Db) (st : Step) → KeepsKeys db (claim_step w now db st).0
unfolding claim_step start_run
claim_step-KeepsKeys w now db st =
    elim (Bool-cases (count (still_claimable db now st) db.steps == 1)) [
      | inl e ↦ elim (Bool-cases (is Status.suspended st.status)) [
        | inl k ↦ rw (e, k) stay
        | inr k ↦ rw (e, k) (set _ _ (λ x. goes_on refl refl (λ bad. absurd (ground arith))) stay)
      ]
      | inr e ↦ rw e stay
    ]

pub claim_due_multi-KeepsKeys :
    (w : Worker) (now : ℕ) (qs : List QueueClaim) (db : Db)
    → KeepsKeys db (claim_due_multi w now db qs).0
claim_due_multi-KeepsKeys w now qs db =
    claim_due_multi_inv (λ d. KeepsKeys db d) w now
      (λ d st c. RunChanges-trans c (claim_step-KeepsKeys w now d st)) qs db stay

pub delete_ephemeral_run-KeepsKeys :
    (run_id : String) (db : Db) → KeepsKeys db (delete_ephemeral_run run_id db)
unfolding delete_ephemeral_run delete_steps
delete_ephemeral_run-KeepsKeys run_id db = drop_rows (is_run run_id) stay

delete_if_ephemeral-KeepsKeys : (run : Run) (db : Db) → KeepsKeys db (delete_if_ephemeral run db)
delete_if_ephemeral-KeepsKeys run db = elim (Bool-cases run.ephemeral) [
  | inl e ↦ rw e (delete_ephemeral_run-KeepsKeys run.id db)
  | inr e ↦ rw e stay
]

complete_dag-KeepsKeys :
    (run : Run) (c : Completion) (db : Db) → KeepsKeys db (complete_dag run c db).0
unfolding complete_dag
complete_dag-KeepsKeys run c db =
    let (steps, names) = unblock_ready run.id c.name c.now db.steps in
    let (status, error) = run_outcome run.id steps in
    elim (Bool-cases (any (λ s. in_run run.id s && is_active s.status) steps)) [
      | inl e ↦ rw e stay
      | inr e ↦ rw e (
          RunChanges-trans
            (set (is_live_run run.id) (end_run status (last_output run.id steps) error c.now)
              (λ x. freed refl refl) stay)
            (delete_if_ephemeral-KeepsKeys run _))
    ]

complete_live-KeepsKeys :
    (n : ℕ) (run : Run) (c : Completion) (db : Db) → KeepsKeys db (complete_live n run c db).0
unfolding complete_live complete_single
complete_live-KeepsKeys n run c db =
    elim (Bool-cases (count (can_complete c.step_id) db.steps == 0)) [
      | inl e ↦ rw e stay
      | inr e ↦ elim (Bool-cases (n == 1)) [
        | inl one ↦
            rw (e, one)
              (RunChanges-trans
                (set (is_live_run run.id) (end_run Status.succeeded c.output "" c.now)
                  (λ x. freed refl refl) stay)
                (delete_if_ephemeral-KeepsKeys run _))
        | inr many ↦ rw (e, many) (complete_dag-KeepsKeys run c _)
      ]
    ]

complete_step_tx-KeepsKeys :
    (n : ℕ) (c : Completion) (db : Db) → OnOk (λ r. KeepsKeys db r.0) (complete_step_tx n c db)
unfolding complete_step_tx complete_dead
complete_step_tx-KeepsKeys n c db = elim (Option-cases (first (is_run c.run_id) db.runs)) [
  | inl e ↦ rw (e, complete_step_tx) tt
  | inr (run, e) ↦ elim (Bool-cases (is_terminal run.status)) [
    | inl t ↦ rw (e, complete_step_tx, t) stay
    | inr t ↦ rw (e, complete_step_tx, t) (complete_live-KeepsKeys n run c db)
  ]
]

pub complete_step-KeepsKeys :
    (c : Completion) (db : Db) → OnOk (λ r. KeepsKeys db r.0) (complete_step c db)
unfolding complete_step
complete_step-KeepsKeys c db = complete_step_tx-KeepsKeys (step_count db c.run_id) c db

pub complete_each-KeepsKeys :
    (start : Db) (cs : List Completion) (db : Db)
    → OnOk (λ r. KeepsKeys db r.0) (complete_each start cs db)
unfolding complete_each
complete_each-KeepsKeys start [] db = stay
complete_each-KeepsKeys start (c ∷ cs) db =
    OnOk-bind (λ r. KeepsKeys db r.0) (λ r. KeepsKeys db r.0)
      (complete_step_tx (step_count start c.run_id) c db) _
      (complete_step_tx-KeepsKeys (step_count start c.run_id) c db)
      (λ r h.
        OnOk-bind (λ rest. KeepsKeys r.0 rest.0) (λ rest. KeepsKeys db rest.0)
          (complete_each start cs r.0) _ (complete_each-KeepsKeys start cs r.0)
          (λ rest k. RunChanges-trans h k))

pub final_fail_step-KeepsKeys :
    (step_id run_id msg : String) (dead_letter : Bool) (now : ℕ) (db : Db)
    → OnOk (λ r. KeepsKeys db r.0) (final_fail_step step_id run_id msg dead_letter now db)
unfolding final_fail_step
final_fail_step-KeepsKeys step_id run_id msg dead_letter now db =
    elim (Option-cases (first (is_run run_id) db.runs)) [
      | inl e ↦ rw (e, final_fail_step) tt
      | inr (run, e) ↦
          rw (e, final_fail_step)
            (RunChanges-trans
              (set (is_live_run run_id) (fail_run msg (dead_letter && not run.ephemeral) now)
                (λ x. freed refl refl) stay)
              (delete_if_ephemeral-KeepsKeys run _))
    ]

pub delete_runs-KeepsKeys : (ids : List String) (db : Db) → KeepsKeys db (delete_runs ids db)
unfolding delete_runs
delete_runs-KeepsKeys [] db = stay
delete_runs-KeepsKeys (id ∷ ids) db =
    RunChanges-trans (delete_ephemeral_run-KeepsKeys id db) (delete_runs-KeepsKeys ids _)

pub interrupt_all-KeepsKeys :
    (worker_id : String) (now : ℕ) (db : Db) → KeepsKeys db (interrupt_all worker_id now db)
unfolding interrupt_all
interrupt_all-KeepsKeys worker_id now db = elim (Bool-cases (str_eq worker_id "")) [
  | inl e ↦
      rw e
        (set is_running_run (interrupt_run now) (λ x. freed refl refl) (delete_runs-KeepsKeys _ db))
  | inr e ↦ rw e (set _ (interrupt_run now) (λ x. freed refl refl) (delete_runs-KeepsKeys _ db))
]

pub recover_interrupted-KeepsKeys :
    (keep : Bool) (now : ℕ) (db : Db) → KeepsKeys db (recover_interrupted keep now db)
unfolding recover_interrupted
recover_interrupted-KeepsKeys keep now db =
    set (λ r. is_lost r.status) (recover_run keep now) (recovered keep) (delete_runs-KeepsKeys _ db)
  where
    recovered : (keep : Bool) (x : Run) → Frees x (recover_run keep now x)
    recovered true x = goes_on refl refl (λ bad. absurd (ground arith))
    recovered false x = freed refl refl

purge_run_batch-KeepsKeys :
    (o : PurgeOptions) (statuses : List Status) (batch : ℕ) (db : Db)
    → KeepsKeys db (purge_run_batch o statuses batch db).db
unfolding purge_run_batch delete_steps
purge_run_batch-KeepsKeys o statuses batch db =
    drop_rows (λ s. is_listed (purge_ids o statuses batch db) s.id) stay

purge_run_batches-KeepsKeys :
    (fuel : ℕ) (o : PurgeOptions) (statuses : List Status) (batch : ℕ) (db : Db) (res : PurgeResult)
    → KeepsKeys db (purge_run_batches fuel o statuses batch db res).0
unfolding purge_run_batches
purge_run_batches-KeepsKeys zero o statuses batch db res = stay
purge_run_batches-KeepsKeys (suc fuel) o statuses batch db res =
    let r = purge_run_batch o statuses batch db in
    let once : KeepsKeys db r.db = purge_run_batch-KeepsKeys o statuses batch db in
    elim (Bool-cases (ltb r.selected batch)) [
      | inl e ↦ rw e once
      | inr e ↦
          rw e (RunChanges-trans once (purge_run_batches-KeepsKeys fuel o statuses batch r.db _))
    ]

-- The loops over the other tables leave the runs as they are.
purge_orphan_logs-runs :
    (fuel batch : ℕ) (db : Db) (res : PurgeResult)
    → (purge_orphan_logs fuel batch db res).0.runs ≡ db.runs
unfolding purge_orphan_logs
purge_orphan_logs-runs zero batch db res = refl
purge_orphan_logs-runs (suc fuel) batch db res =
    elim (Bool-cases (ltb (min batch (count (is_orphan db.runs) db.logs)) batch)) [
      | inl e ↦ rw e refl
      | inr e ↦ rw e (purge_orphan_logs-runs fuel batch _ _)
    ]

purge_events-runs :
    (fuel before batch : ℕ) (db : Db) (res : PurgeResult)
    → (purge_events fuel before batch db res).0.runs ≡ db.runs
unfolding purge_events
purge_events-runs zero before batch db res = refl
purge_events-runs (suc fuel) before batch db res =
    elim (Bool-cases (ltb (min batch (count (is_old_event before) db.events)) batch)) [
      | inl e ↦ rw e refl
      | inr e ↦ rw e (purge_events-runs fuel before batch _ _)
    ]

pub purge_runs-KeepsKeys :
    (o : PurgeOptions) (db : Db) → OnOk (λ r. KeepsKeys db r.0) (purge_runs o db)
unfolding purge_runs purge_all
purge_runs-KeepsKeys o db = elim (Bool-cases (o.before == 0)) [
  | inl e ↦ rw e tt
  | inr e ↦ elim (Bool-cases (not (all is_terminal (statuses_of o)))) [
    | inl k ↦ rw (e, k) tt
    | inr k ↦ rw (e, k) (purged (statuses_of o) (batch_of o))
  ]
]
  where
    events_last :
        (statuses : List Status) (batch : ℕ) (r : Db × PurgeResult)
        → KeepsKeys db r.0
        → KeepsKeys db (purge_events (suc (length r.0.events)) o.before batch r.0 r.1).0
    events_last statuses batch r q =
        subst (RunChanges db.runs)
          (sym (purge_events-runs (suc (length r.0.events)) o.before batch r.0 r.1)) q

    purged : (statuses : List Status) (batch : ℕ) → KeepsKeys db (purge_all o statuses batch db).0
    purged statuses batch =
        let first_loop =
          purge_run_batches-KeepsKeys (suc (length db.runs)) o statuses batch db no_rows_purged in
        elim (Bool-cases o.keep_logs) [
          | inl e ↦ simp e (events_last statuses batch _ first_loop)
          | inr e ↦ simp e (
              events_last statuses batch _
                (subst (RunChanges db.runs) (sym (purge_orphan_logs-runs _ batch _ _)) first_loop))
        ]
