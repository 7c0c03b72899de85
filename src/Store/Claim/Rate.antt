-- ===== src/Store/Claim/Rate.antt =====
-- The start-rate window and the slot budget of a claim.
use quacker.Prelude.{Bool-cases, inl, inr, if◌then◌else◌, ◌==◌, ◌+◌}
use quacker.Prelude.{
  ℕ, ◌+◌, ◌-◌, ◌≤◌, ◌<◌, max, Bool, inl, inr, Bool-cases, arith, List, [], ◌∷◌, ◌++◌, length,
  length-append, length-take-le, length-map, ◌==◌,
}
use quacker.Table.{count}
use quacker.Table.Laws.{count-update-le}
use quacker.Store.Model.{Step, Db}
use quacker.Store.Claim.{
  Worker, QueueClaim, claimed_since, window_of, claim_limit, claim_candidates, claim_step,
  claim_each, claim_queue, claim_queues, claim_due_multi, claim_due, still_claimable, claim_row,
  attach_run,
}
use quacker.Store.Claim.KeyLimit.{
  HasUniqueIds, claim_step-steps, claim_step-ids, count-still_claimable-le,
}

claim_step-length :
    (w : Worker) (now : ℕ) (db : Db) (st : Step) → length (claim_step w now db st).1 ≤ 1
unfolding claim_step
claim_step-length w now db st =
    elim (Bool-cases (count (still_claimable db now st) db.steps == 1)) [
      | inl e ↦ rw e (omega arith)
      | inr e ↦ rw e (omega arith)
    ]

claim_each-length :
    (w : Worker) (now : ℕ) (cands : List Step) (db : Db)
    → length (claim_each w now db cands).1 ≤ length cands
unfolding claim_each
claim_each-length w now [] db = omega arith
claim_each-length w now (st ∷ rest) db = omega (
  arith,
  claim_step-length w now db st,
  claim_each-length w now rest (claim_step w now db st).0,
  length-append {0} (claim_step w now db st).1 (claim_each w now (claim_step w now db st).0 rest).1,
)

length-claim_candidates :
    (db : Db) (w : Worker) (q : QueueClaim) (now : ℕ)
    → length (claim_candidates db q.name now w.labels (claim_limit db q now)) ≤ claim_limit db q now
unfolding claim_candidates
length-claim_candidates db w q now = length-take-le _ _

claim_limit-le :
    (db : Db) (q : QueueClaim) (now : ℕ)
    → (claim_limit db q now ≤ q.limit)
      × (0 < q.rate_limit
          → claim_limit db q now + count (claimed_since q.name (now - window_of q)) db.steps
            ≤ max q.rate_limit (count (claimed_since q.name (now - window_of q)) db.steps))
unfolding claim_limit
claim_limit-le db q now = (ground arith, λ pos. ground arith)

-- Each round moves at most one row into any set of rows.
count-claim_each-le :
    (w : Worker) (now : ℕ) (p : Step → Bool) (cands : List Step) (db : Db)
    → HasUniqueIds db.steps
    → count p (claim_each w now db cands).0.steps ≤ count p db.steps + length cands
unfolding claim_each
count-claim_each-le w now p [] db ids = omega arith
count-claim_each-le w now p (st ∷ rest) db ids =
    let db1 = (claim_step w now db st).0 in
    let ids1 : HasUniqueIds db1.steps = claim_step-ids w now db st ids in
    let one : count p db1.steps ≤ count p db.steps + 1 = rw (claim_step-steps w now db st) (
      omega (
        arith,
        count-update-le p (still_claimable db now st) (claim_row w now st) db.steps,
        count-still_claimable-le db now st (λ x. p (claim_row w now st x)) ids,
      )) in
    omega (arith, one, count-claim_each-le w now p rest db1 ids1)

-- Without a rate limit the budget is the free slots.
abbrev pub budget : Db → QueueClaim → ℕ → ℕ
budget db q now =
    if q.rate_limit == 0
    then count (claimed_since q.name (now - window_of q)) db.steps + q.limit
    else max q.rate_limit (count (claimed_since q.name (now - window_of q)) db.steps)

claim_limit-budget :
    (db : Db) (q : QueueClaim) (now : ℕ)
    → claim_limit db q now + count (claimed_since q.name (now - window_of q)) db.steps
      ≤ budget db q now
claim_limit-budget db q now =
    let (slots, window) = claim_limit-le db q now in
    elim (Bool-cases (q.rate_limit == 0)) [
      | inl e ↦ rw e (omega (arith, slots))
      | inr e ↦ rw e (window (ground arith))
    ]

length-claim_due :
    (w : Worker) (now : ℕ) (db : Db) (q : QueueClaim)
    → length (claim_due w now db q).1 ≤ claim_limit db q now
unfolding claim_due claim_due_multi claim_queues claim_queue
length-claim_due w now db q =
    let cands = claim_candidates db q.name now w.labels (claim_limit db q now) in
    omega (
      arith,
      length-map (attach_run (claim_each w now db cands).0 now)
          ((claim_each w now db cands).1 ++ []),
      length-append {0} (claim_each w now db cands).1 [],
      claim_each-length w now cands db,
      length-claim_candidates db w q now,
    )

count-claim_due :
    (w : Worker) (now : ℕ) (db : Db) (q : QueueClaim)
    → HasUniqueIds db.steps
    → count (claimed_since q.name (now - window_of q)) (claim_due w now db q).0.steps
      ≤ count (claimed_since q.name (now - window_of q)) db.steps + claim_limit db q now
unfolding claim_due claim_due_multi claim_queues claim_queue
count-claim_due w now db q ids = omega (
  arith,
  count-claim_each-le w now (claimed_since q.name (now - window_of q))
      (claim_candidates db q.name now w.labels (claim_limit db q now)) db ids,
  length-claim_candidates db w q now,
)

-- A claim on one queue returns no more claims than the queue has free slots. Count the queue's rows whose
-- latest claim lies in the trailing window: a row that was claimed twice in it counts once. Under a rate
-- limit the rows counted before and the claims returned are together at most that limit, or the rows
-- counted before if those were more already; without one, at most those rows and the free slots. If step
-- ids are unique, the rows counted after the claim are within the same bound.
pub claim_due_bounds :
    (w : Worker) (now : ℕ) (db : Db) (q : QueueClaim)
    → HasUniqueIds db.steps
    → (length (claim_due w now db q).1 ≤ q.limit)
      × (count (claimed_since q.name (now - window_of q)) db.steps + length (claim_due w now db q).1
          ≤ budget db q now)
      × (count (claimed_since q.name (now - window_of q)) (claim_due w now db q).0.steps
          ≤ budget db q now)
claim_due_bounds w now db q ids =
    let len = length-claim_due w now db q in
    let both = claim_limit-budget db q now in
    (
      omega (arith, len, (claim_limit-le db q now).0),
      omega (arith, len, both),
      omega (arith, count-claim_due w now db q ids, both),
    )
