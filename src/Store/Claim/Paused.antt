-- ===== src/Store/Claim/Paused.antt =====
-- Paused queues and paused runs in the claim path.
use quacker.Prelude.{
  ℕ, ◌≤◌, ◌+◌, String, ◌≡◌, refl, sym, ◌∙◌, Bool, true, false, not, ◌&&◌, inl, inr, Bool-cases,
  &&-true, str_eq, eq_iff, arith, List, any, subst, ◌==◌, if◌then◌else◌,
}
use native.Mathlib.Nat.{le_refl}
use quacker.Table.{count}
use quacker.Table.Laws.{count-update-le, count_zero, any-update_same}
use quacker.Store.Model.{Status, is, Step, Run, Db}
use quacker.Store.Gates.{gates_parts, queue_paused_gate, run_not_paused_gate}
use quacker.Store.Claim.{
  Worker, QueueClaim, claim_step, still_claimable, claim_row, claim_due_multi, start_run,
}
use quacker.Store.Claim.Loop.{claim_due_multi_inv}
use quacker.Store.Claim.KeyLimit.{claim_step-steps, still_claimable_passes}

-- A paused queue, and its RUNNING steps.
abbrev pub is_queue_paused : String → Db → Bool
is_queue_paused queue db = any (λ q. str_eq q queue) db.queue_pauses

abbrev pub runs_in_queue : String → Step → Bool
runs_in_queue queue s = str_eq s.queue queue && is Status.running s.status

-- A paused run, and its RUNNING steps.
abbrev pub is_paused_run : String → Run → Bool
is_paused_run run_id r = str_eq r.id run_id && is Status.paused r.status

abbrev pub is_run_paused : String → Db → Bool
is_run_paused run_id db = any (is_paused_run run_id) db.runs

abbrev pub runs_in_run : String → Step → Bool
runs_in_run run_id s = str_eq s.run_id run_id && is Status.running s.status

claim_row_home :
    (w : Worker) (now : ℕ) (st r : Step)
    → ((claim_row w now st r).queue ≡ r.queue) × ((claim_row w now st r).run_id ≡ r.run_id)
unfolding claim_row
claim_row_home w now st r = elim (Bool-cases (is Status.suspended st.status)) [
  | inl e ↦ rw e (refl, refl)
  | inr e ↦ rw e (refl, refl)
]

module _ (w : Worker) (now : ℕ) where
  -- If no row that a round may move passes the test afterwards, no more rows pass it.
  count-claim_step-le :
      (p : Step → Bool) (db : Db) (st : Step)
      → ((r : Step) → still_claimable db now st r ≡ true → p (claim_row w now st r) ≡ true → ⊥)
      → count p (claim_step w now db st).0.steps ≤ count p db.steps
  count-claim_step-le p db st never = rw (claim_step-steps w now db st) (
      omega (
        arith,
        count-update-le p (still_claimable db now st) (claim_row w now st) db.steps,
        count_zero (λ r. still_claimable db now st r && p (claim_row w now st r)) db.steps
            none_moves,
      ))
    where
      none_moves : (r : Step) → (still_claimable db now st r && p (claim_row w now st r)) ≡ false
      none_moves r = elim (Bool-cases (still_claimable db now st r && p (claim_row w now st r))) [
        | inl e ↦ absurd (never r (&&-true _ _ e).0 (&&-true _ _ e).1)
        | inr e ↦ e
      ]

  queue_round :
      (queue : String) (n : ℕ) (db : Db) (st : Step)
      → (is_queue_paused queue db ≡ true) × (count (runs_in_queue queue) db.steps ≤ n)
      → (is_queue_paused queue (claim_step w now db st).0 ≡ true)
        × (count (runs_in_queue queue) (claim_step w now db st).0.steps ≤ n)
  queue_round queue n db st (paused, le) = (
    rw (claim_step-pauses db st) paused,
    omega (arith, le, count-claim_step-le (runs_in_queue queue) db st never),
  )
    where
      claim_step-pauses :
          (db : Db) (st : Step) → (claim_step w now db st).0.queue_pauses ≡ db.queue_pauses
      claim_step-pauses db st =
          elim (Bool-cases (count (still_claimable db now st) db.steps == 1)) [
            | inl e ↦ unfold claim_step in rw e refl
            | inr e ↦ unfold claim_step in rw e refl
          ]

      never :
          (r : Step)
          → still_claimable db now st r ≡ true
          → runs_in_queue queue (claim_row w now st r) ≡ true
          → ⊥
      never r hit runs =
          let home : r.queue ≡ queue =
            sym (claim_row_home w now st r).0 ∙ (eq_iff _ queue).0 (&&-true _ _ runs).0 in
          let gate = (gates_parts db r (still_claimable_passes db now st r hit).1).1 in
          unfold queue_paused_gate in
          let open_queue : not (is_queue_paused queue db) ≡ true =
            subst (λ q. not (is_queue_paused q db) ≡ true) home gate in
          cc (paused, open_queue)

  claim_step-paused_run :
      (run_id : String) (db : Db) (st : Step)
      → is_run_paused run_id (claim_step w now db st).0 ≡ is_run_paused run_id db
  unfolding claim_step start_run
  claim_step-paused_run run_id db st =
      elim (Bool-cases (count (still_claimable db now st) db.steps == 1)) [
        | inl e ↦ elim (Bool-cases (is Status.suspended st.status)) [
          | inl f ↦ rw (e, f) refl
          | inr f ↦
              rw (e, f)
                (any-update_same (is_paused_run run_id)
                  (λ r. str_eq r.id st.run_id && is Status.queued r.status)
                  (λ r. record r {
                    status = Status.running;
                    attempts = r.attempts + 1;
                    started_at = if r.started_at == 0 then now else r.started_at;
                  })
                  db.runs (λ r hit. ground arith))
        ]
        | inr e ↦ rw e refl
      ]

  run_round :
      (run_id : String) (n : ℕ) (db : Db) (st : Step)
      → (is_run_paused run_id db ≡ true) × (count (runs_in_run run_id) db.steps ≤ n)
      → (is_run_paused run_id (claim_step w now db st).0 ≡ true)
        × (count (runs_in_run run_id) (claim_step w now db st).0.steps ≤ n)
  run_round run_id n db st (paused, le) = (
    rw (claim_step-paused_run run_id db st) paused,
    omega (arith, le, count-claim_step-le (runs_in_run run_id) db st never),
  )
    where
      never :
          (r : Step)
          → still_claimable db now st r ≡ true
          → runs_in_run run_id (claim_row w now st r) ≡ true
          → ⊥
      never r hit runs =
          let home : r.run_id ≡ run_id =
            sym (claim_row_home w now st r).1 ∙ (eq_iff _ run_id).0 (&&-true _ _ runs).0 in
          let gate = (gates_parts db r (still_claimable_passes db now st r hit).1).2 in
          unfold run_not_paused_gate in
          let open_run : not (is_run_paused run_id db) ≡ true =
            subst (λ q. not (is_run_paused q db) ≡ true) home gate in
          cc (paused, open_run)

-- A claim batch starts no step of a paused queue: the pause stays, and the number of the queue's
-- RUNNING steps does not rise.
pub claim_due_multi_queue_paused :
    (w : Worker) (now : ℕ) (qs : List QueueClaim) (db : Db) (queue : String)
    → is_queue_paused queue db ≡ true
    → (is_queue_paused queue (claim_due_multi w now db qs).0 ≡ true)
      × (count (runs_in_queue queue) (claim_due_multi w now db qs).0.steps
          ≤ count (runs_in_queue queue) db.steps)
claim_due_multi_queue_paused w now qs db queue paused =
    claim_due_multi_inv
      (λ d.
        (is_queue_paused queue d ≡ true)
        × (count (runs_in_queue queue) d.steps ≤ count (runs_in_queue queue) db.steps))
      w now (queue_round w now queue (count (runs_in_queue queue) db.steps)) qs db
      (paused, le_refl _)

-- A claim batch starts no step of a paused run: the run stays paused, and the number of its RUNNING
-- steps does not rise.
pub claim_due_multi_run_paused :
    (w : Worker) (now : ℕ) (qs : List QueueClaim) (db : Db) (run_id : String)
    → is_run_paused run_id db ≡ true
    → (is_run_paused run_id (claim_due_multi w now db qs).0 ≡ true)
      × (count (runs_in_run run_id) (claim_due_multi w now db qs).0.steps
          ≤ count (runs_in_run run_id) db.steps)
claim_due_multi_run_paused w now qs db run_id paused =
    claim_due_multi_inv
      (λ d.
        (is_run_paused run_id d ≡ true)
        × (count (runs_in_run run_id) d.steps ≤ count (runs_in_run run_id) db.steps))
      w now (run_round w now run_id (count (runs_in_run run_id) db.steps)) qs db (paused, le_refl _)
