-- ===== src/Engine/Tick/Sleep.antt =====
-- How long the scheduler sleeps.
use quacker.Prelude.{
  ℕ, ◌+◌, ◌-◌, ◌≤◌, ◌<◌, ◌≡◌, refl, Bool, false, List, [], ◌⊎◌, inl, inr, Bool-cases, ltb, leb,
  ◌==◌, ==_iff, if◌then◌else◌, arith,
}
use quacker.Store.Model.{Db}
use quacker.Store.Claim.{QueueClaim, Worker, claim_due_multi}
use quacker.Store.Queries.{next_due}
use quacker.Store.Queries.Due.{HasStartTimes, claim_due_multi-next_due}
use quacker.Engine.Tick.{idle_cap, idle_wait}

-- An idle scheduler sleeps through nothing: if every QUEUED step has a start time, then idleWait is the poll
-- interval or at most the idle cap, and in the second case a claim on any queues at any time before the
-- sleep ends starts nothing, as long as the database stays as it is.
pub idle_wait-claim_due_multi :
    (poll : ℕ) (external_tx : Bool) (now time : ℕ) (worker : Worker) (qs : List QueueClaim)
    (db : Db)
    → HasStartTimes db.steps
    → now ≤ time
    → time < now + idle_wait poll external_tx now db
    → (idle_wait poll external_tx now db ≡ poll)
      ⊎ ((idle_wait poll external_tx now db ≤ idle_cap external_tx)
          × (claim_due_multi worker time db qs ≡ (db, [])))
unfolding idle_wait
idle_wait-claim_due_multi poll external_tx now time worker qs db timed le lt =
    elim (Bool-cases (next_due db == 0)) [
      | inl e ↦ rw e (
          inr (
            omega arith,
            claim_due_multi-next_due worker time qs db timed (inl ((==_iff _ _).0 e)),
          ))
      | inr e ↦ elim (Bool-cases (leb (next_due db) now)) [
        | inl k ↦ rw (e, k) (inl refl)
        | inr k ↦
            let asleep = rw (e, k) at lt in
            let (ahead, short) = sleep (next_due db) (idle_cap external_tx) k le asleep in
            rw (e, k) (inr (short, claim_due_multi-next_due worker time qs db timed (inr ahead)))
      ]
    ]
  where
    sleep :
        (next cap : ℕ)
        → leb next now ≡ false
        → now ≤ time
        → time < now + (if ltb cap (next - now) then cap else next - now)
        → (time < next) × ((if ltb cap (next - now) then cap else next - now) ≤ cap)
    sleep next cap k le lt = ground arith
