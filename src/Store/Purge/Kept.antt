-- ===== src/Store/Purge/Kept.antt =====
-- What PurgeRuns does to a run that has not ended.
use quacker.Prelude.{
  ℕ, zero, suc, ◌≤◌, ◌≡◌, refl, sym, ◌∙◌, ap, subst, String, true, false, inl, inr, Bool-cases,
  List, Memᴰ, all, any-witness, all-mem, mem-map_cases, str_eq, eq_iff, arith, ltb, ◌==◌, length,
  min, &&-true,
}
use quacker.Table.{count}
use quacker.Table.Laws.{
  mem-take, mem-order_by, mem-select, mem-delete_intro, count_unique, count-delete-le,
}
use quacker.Store.Model.{Status, is, is_iff, is_terminal, Run, Step, Db, OnOk}
use quacker.Store.Complete.{delete_steps}
use quacker.Store.Purge.{
  PurgeOptions, PurgeResult, is_purgeable, purge_ids, is_listed, purge_run_batch, purge_run_batches,
  purge_orphan_logs, purge_events, purge_all, purge_runs, statuses_of, batch_of, is_orphan,
  is_old_event, no_rows_purged,
}

-- The run and its steps are there, as they were in `start`.
pub record Keeps (start : Db) (r : Run) (db : Db) : Type 0 where
  pub ids : (i : String) → count (λ x. str_eq x.id i) db.runs ≤ 1
  pub run : Memᴰ r db.runs
  pub steps : (s : Step) → Memᴰ s start.steps → s.run_id ≡ r.id → Memᴰ s db.steps

purgeable-terminal :
    (o : PurgeOptions) (statuses : List Status) (steps : List Step) (x : Run)
    → all is_terminal statuses ≡ true
    → is_purgeable o statuses steps x ≡ true
    → is_terminal x.status ≡ true
unfolding is_purgeable
purgeable-terminal o statuses steps x ends h =
    let (st, m, e) = any-witness (λ st. is st x.status) statuses (&&-true _ _ h).0 in
    ap is_terminal ((is_iff st x.status).0 e) ∙ all-mem is_terminal statuses ends st m

module _ (o : PurgeOptions) (statuses : List Status) (batch : ℕ)
    (ends : all is_terminal statuses ≡ true) (start : Db) (r : Run)
    (live : is_terminal r.status ≡ false) where
  not_listed : (db : Db) → Keeps start r db → is_listed (purge_ids o statuses batch db) r.id ≡ false
  unfolding purge_ids
  not_listed db k = elim (Bool-cases (is_listed (purge_ids o statuses batch db) r.id)) [
    | inl e ↦
        let (i, m, same) = any-witness (λ i. str_eq i r.id) (purge_ids o statuses batch db) e in
        let (x, n, is_id) = mem-map_cases (λ x. x.id) i _ m in
        let (y, hit) =
          mem-select (is_purgeable o statuses db.steps) x db.runs
            (mem-order_by (λ a b. ltb a.completed_at b.completed_at) x _ (mem-take batch x _ n)) in
        let x_id : str_eq x.id r.id ≡ true = (eq_iff _ _).1 (sym is_id ∙ (eq_iff i r.id).0 same) in
        let is_r : x ≡ r =
          count_unique (λ z. str_eq z.id r.id) x r db.runs (k.ids r.id) y k.run x_id
            ((eq_iff r.id r.id).1 refl) in
        let ended : is_terminal r.status ≡ true =
          subst (λ z. is_terminal z.status ≡ true) is_r
            (purgeable-terminal o statuses db.steps x ends hit) in
        absurd (ground arith)
    | inr e ↦ e
  ]

  batch-Keeps :
      (db : Db) → Keeps start r db → Keeps start r (purge_run_batch o statuses batch db).db
  unfolding purge_run_batch delete_steps
  batch-Keeps db k =
      let ids = purge_ids o statuses batch db in
      let free = not_listed db k in
      record {
        ids = λ i. omega (
          arith,
          count-delete-le (λ x. str_eq x.id i) (λ x. is_listed ids x.id) db.runs,
          k.ids i,
        );
        run = mem-delete_intro (λ x. is_listed ids x.id) r db.runs k.run free;
        steps = λ s m home.
            mem-delete_intro (λ x. is_listed ids x.run_id) s db.steps (k.steps s m home)
              (ap (is_listed ids) home ∙ free);
      }

  batches-Keeps :
      (fuel : ℕ) (db : Db) (res : PurgeResult)
      → Keeps start r db
      → Keeps start r (purge_run_batches fuel o statuses batch db res).0
  unfolding purge_run_batches
  batches-Keeps zero db res k = k
  batches-Keeps (suc fuel) db res k =
      let once = batch-Keeps db k in
      elim (Bool-cases (ltb (purge_run_batch o statuses batch db).selected batch)) [
        | inl e ↦ rw e once
        | inr e ↦ rw e (batches-Keeps fuel _ _ once)
      ]

  orphans-Keeps :
      (fuel : ℕ) (db : Db) (res : PurgeResult)
      → Keeps start r db
      → Keeps start r (purge_orphan_logs fuel batch db res).0
  unfolding purge_orphan_logs
  orphans-Keeps zero db res k = k
  orphans-Keeps (suc fuel) db res k =
      elim (Bool-cases (ltb (min batch (count (is_orphan db.runs) db.logs)) batch)) [
        | inl e ↦ rw e (record { ids = k.ids; run = k.run; steps = k.steps })
        | inr e ↦
            rw e (orphans-Keeps fuel _ _ (record { ids = k.ids; run = k.run; steps = k.steps }))
      ]

  events-Keeps :
      (fuel : ℕ) (db : Db) (res : PurgeResult)
      → Keeps start r db
      → Keeps start r (purge_events fuel o.before batch db res).0
  unfolding purge_events
  events-Keeps zero db res k = k
  events-Keeps (suc fuel) db res k =
      elim (Bool-cases (ltb (min batch (count (is_old_event o.before) db.events)) batch)) [
        | inl e ↦ rw e (record { ids = k.ids; run = k.run; steps = k.steps })
        | inr e ↦
            rw e (events-Keeps fuel _ _ (record { ids = k.ids; run = k.run; steps = k.steps }))
      ]

  all-Keeps : (db : Db) → Keeps start r db → Keeps start r (purge_all o statuses batch db).0
  unfolding purge_all
  all-Keeps db k =
      let runs_gone = batches-Keeps (suc (length db.runs)) db no_rows_purged k in
      elim (Bool-cases o.keep_logs) [
        | inl e ↦ simp e (events-Keeps _ _ _ runs_gone)
        | inr e ↦ simp e (events-Keeps _ _ _ (orphans-Keeps _ _ _ runs_gone))
      ]

-- Retention removes only what has ended: if run ids are unique, then a run that has not ended is in the
-- database unchanged after PurgeRuns, whatever the options, and so is each of its steps.
pub purge_runs-Keeps :
    (o : PurgeOptions) (db : Db) (r : Run)
    → ((i : String) → count (λ x. str_eq x.id i) db.runs ≤ 1)
    → Memᴰ r db.runs
    → is_terminal r.status ≡ false
    → OnOk (λ p. Keeps db r p.0) (purge_runs o db)
unfolding purge_runs
purge_runs-Keeps o db r ids m live = elim (Bool-cases (o.before == 0)) [
  | inl e ↦ rw e tt
  | inr e ↦ elim (Bool-cases (all is_terminal (statuses_of o))) [
    | inl k ↦
        simp (e, k)
          (all-Keeps o (statuses_of o) (batch_of o) k db r live db
            (record { ids = ids; run = m; steps = λ s n home. n }))
    | inr k ↦ simp (e, k) tt
  ]
]
