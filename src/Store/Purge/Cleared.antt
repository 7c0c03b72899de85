-- ===== src/Store/Purge/Cleared.antt =====
-- How the loops of PurgeRuns end.
use quacker.Prelude.{
  ℕ, zero, suc, ◌-◌, ◌≤◌, ◌<◌, ◌≡◌, refl, Bool, true, false, not, inl, inr, Bool-cases, List, [],
  ◌∷◌, arith, ltb, min, length, ◌==◌, subst,
}
use quacker.Table.{count, delete_limit}
use quacker.Store.Model.{Db}
use quacker.Prelude.{◌||◌, all, sym}
use quacker.Store.Model.{is_terminal, OnOk}
use quacker.Store.Purge.Rounds.{left-batches}
use quacker.Store.Purge.{
  PurgeOptions, is_purgeable, purge_run_batches, purge_all, purge_runs, statuses_of, batch_of,
  no_rows_purged, PurgeResult, purge_orphan_logs, purge_events, is_orphan, is_old_event,
}

count-delete_limit :
    {A : Type 0} (p : A → Bool) (n : ℕ) (xs : List A)
    → count p (delete_limit p n xs) ≡ count p xs - n
unfolding count delete_limit
count-delete_limit p zero xs = omega arith
count-delete_limit p (suc n) [] = omega arith
count-delete_limit p (suc n) (x ∷ xs) = elim (Bool-cases (p x)) [
  | inl e ↦ simp e (omega (arith, count-delete_limit p n xs))
  | inr e ↦ simp e (count-delete_limit p (suc n) xs)
]

count-length-le : {A : Type 0} (p : A → Bool) (xs : List A) → count p xs ≤ length xs
unfolding count
count-length-le p [] = omega arith
count-length-le p (x ∷ xs) = elim (Bool-cases (p x)) [
  | inl e ↦ simp e (omega (arith, count-length-le p xs))
  | inr e ↦ simp e (omega (arith, count-length-le p xs))
]

purge_events-count :
    (fuel before batch : ℕ) (db : Db) (res : PurgeResult)
    → 0 < batch
    → count (is_old_event before) db.events < fuel
    → count (is_old_event before) (purge_events fuel before batch db res).0.events ≡ 0
unfolding purge_events
purge_events-count zero before batch db res pos enough = absurd (omega (arith, enough))
purge_events-count (suc fuel) before batch db res pos enough =
    let less = count-delete_limit (is_old_event before) batch db.events in
    elim (Bool-cases (ltb (min batch (count (is_old_event before) db.events)) batch)) [
      | inl e ↦ rw e (let k = short _ _ e in omega (arith, less, k))
      | inr e ↦ rw e (
          purge_events-count fuel before batch _ _ pos
            (let k = full _ _ e in omega (arith, less, k, pos, enough)))
    ]
  where
    short : (b n : ℕ) → ltb (min b n) b ≡ true → n ≤ b
    short b n h = ground arith

    full : (b n : ℕ) → ltb (min b n) b ≡ false → b ≤ n
    full b n h = ground arith

purge_orphan_logs-count :
    (fuel batch : ℕ) (db : Db) (res : PurgeResult)
    → 0 < batch
    → count (is_orphan db.runs) db.logs < fuel
    → count (is_orphan db.runs) (purge_orphan_logs fuel batch db res).0.logs ≡ 0
unfolding purge_orphan_logs
purge_orphan_logs-count zero batch db res pos enough = absurd (omega (arith, enough))
purge_orphan_logs-count (suc fuel) batch db res pos enough =
    let less = count-delete_limit (is_orphan db.runs) batch db.logs in
    elim (Bool-cases (ltb (min batch (count (is_orphan db.runs) db.logs)) batch)) [
      | inl e ↦ rw e (let k = short _ _ e in omega (arith, less, k))
      | inr e ↦ rw e (
          purge_orphan_logs-count fuel batch _ _ pos
            (let k = full _ _ e in omega (arith, less, k, pos, enough)))
    ]
  where
    short : (b n : ℕ) → ltb (min b n) b ≡ true → n ≤ b
    short b n h = ground arith

    full : (b n : ℕ) → ltb (min b n) b ≡ false → b ≤ n
    full b n h = ground arith

-- The loop over the events leaves the other tables alone, and the loop over the logs the first two.
record SameRuns (db db' : Db) : Type 0 where
  runs : db'.runs ≡ db.runs
  steps : db'.steps ≡ db.steps

purge_orphan_logs-SameRuns :
    (fuel batch : ℕ) (db : Db) (res : PurgeResult)
    → SameRuns db (purge_orphan_logs fuel batch db res).0
unfolding purge_orphan_logs
purge_orphan_logs-SameRuns zero batch db res = record { runs = refl; steps = refl }
purge_orphan_logs-SameRuns (suc fuel) batch db res =
    elim (Bool-cases (ltb (min batch (count (is_orphan db.runs) db.logs)) batch)) [
      | inl e ↦ rw e (record { runs = refl; steps = refl })
      | inr e ↦
          let rest = purge_orphan_logs-SameRuns fuel batch _ _ in
          rw e (record { runs = rest.runs; steps = rest.steps })
    ]

purge_events-SameRuns :
    (fuel before batch : ℕ) (db : Db) (res : PurgeResult)
    → SameRuns db (purge_events fuel before batch db res).0
      × ((purge_events fuel before batch db res).0.logs ≡ db.logs)
unfolding purge_events
purge_events-SameRuns zero before batch db res = (record { runs = refl; steps = refl }, refl)
purge_events-SameRuns (suc fuel) before batch db res =
    elim (Bool-cases (ltb (min batch (count (is_old_event before) db.events)) batch)) [
      | inl e ↦ rw e (record { runs = refl; steps = refl }, refl)
      | inr e ↦
          let (rest, logs) = purge_events-SameRuns fuel before batch _ _ in
          rw e (record { runs = rest.runs; steps = rest.steps }, logs)
    ]

-- Nothing that PurgeRuns looks for is left.
pub record Cleared (o : PurgeOptions) (db : Db) : Type 0 where
  pub runs : count (is_purgeable o (statuses_of o) db.steps) db.runs ≡ 0
  pub logs : (o.keep_logs || count (is_orphan db.runs) db.logs == 0) ≡ true
  pub events : count (is_old_event o.before) db.events ≡ 0

module _ (o : PurgeOptions) where
  batch_pos : 0 < batch_of o
  batch_pos = elim (Bool-cases (o.batch_size == 0)) [
    | inl e ↦ simp e (omega arith)
    | inr e ↦ simp e (ground arith)
  ]

  -- The last loop, from a state in which the first two have ended.
  events_last :
      (db : Db) (res : PurgeResult)
      → count (is_purgeable o (statuses_of o) db.steps) db.runs ≡ 0
      → (o.keep_logs || count (is_orphan db.runs) db.logs == 0) ≡ true
      → Cleared o (purge_events (suc (length db.events)) o.before (batch_of o) db res).0
  events_last db res runs logs =
      let (same, same_logs) =
        purge_events-SameRuns (suc (length db.events)) o.before (batch_of o) db res in
      record {
        runs = rw (same.runs, same.steps) runs;
        logs = rw (same.runs, same_logs) logs;
        events =
            purge_events-count (suc (length db.events)) o.before (batch_of o) db res batch_pos
              (let k = count-length-le (is_old_event o.before) db.events in omega (arith, k));
      }

  kept_logs : (b : Bool) → o.keep_logs ≡ true → (o.keep_logs || b) ≡ true
  kept_logs b e = ground arith

  no_logs : (n : ℕ) → n ≡ 0 → (o.keep_logs || n == 0) ≡ true
  no_logs n e = ground arith

  -- The last two loops.
  logs_then_events :
      (db : Db) (res : PurgeResult)
      → count (is_purgeable o (statuses_of o) db.steps) db.runs ≡ 0
      → (let r = purge_orphan_logs (suc (length db.logs)) (batch_of o) db res in
          Cleared o (purge_events (suc (length r.0.events)) o.before (batch_of o) r.0 r.1).0)
  logs_then_events db res gone =
      let r = purge_orphan_logs (suc (length db.logs)) (batch_of o) db res in
      let same = purge_orphan_logs-SameRuns (suc (length db.logs)) (batch_of o) db res in
      let none_left =
        purge_orphan_logs-count (suc (length db.logs)) (batch_of o) db res batch_pos
          (let k = count-length-le (is_orphan db.runs) db.logs in omega (arith, k)) in
      events_last r.0 r.1 (rw (same.runs, same.steps) gone) (
        no_logs (count (is_orphan r.0.runs) r.0.logs)
          (subst (λ rs. count (is_orphan rs) r.0.logs ≡ 0) (sym same.runs) none_left))

  purge_all-Cleared : (db : Db) → Cleared o (purge_all o (statuses_of o) (batch_of o) db).0
  unfolding purge_all
  purge_all-Cleared db =
      let (db1, res1) =
        purge_run_batches (suc (length db.runs)) o (statuses_of o) (batch_of o) db no_rows_purged in
      let gone : count (is_purgeable o (statuses_of o) db1.steps) db1.runs ≡ 0 =
        left-batches o (statuses_of o) (batch_of o) (suc (length db.runs)) db no_rows_purged
          batch_pos
          (let k = count-length-le (is_purgeable o (statuses_of o) db.steps) db.runs in
            omega (arith, k)) in
      elim (Bool-cases o.keep_logs) [
        | inl e ↦ simp e (events_last db1 res1 gone (kept_logs _ e))
        | inr e ↦ simp e (logs_then_events db1 res1 gone)
      ]

-- PurgeRuns goes on until nothing is left to purge, however small its batches: if it does not refuse
-- its options, no run that may be purged is left, no event older than the cutoff, and, unless logs are
-- kept, no log line of a run that is gone.
pub purge_runs-Cleared : (o : PurgeOptions) (db : Db) → OnOk (λ p. Cleared o p.0) (purge_runs o db)
unfolding purge_runs
purge_runs-Cleared o db = elim (Bool-cases (o.before == 0)) [
  | inl e ↦ rw e tt
  | inr e ↦ elim (Bool-cases (not (all is_terminal (statuses_of o)))) [
    | inl k ↦ rw (e, k) tt
    | inr k ↦ rw (e, k) (purge_all-Cleared o db)
  ]
]
