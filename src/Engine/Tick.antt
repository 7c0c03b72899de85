-- ===== src/Engine/Tick.antt =====
-- tick and idleWait of engine.go: one pass of the scheduler, and how long it sleeps. A store error is not
-- modelled here: it falls back to the poll interval.
pub mod Slots
pub mod Sleep
use quacker.Prelude.{
  ℕ, ◌+◌, ◌-◌, String, Bool, true, false, not, ◌&&◌, List, [], ◌∷◌, ◌++◌, map, any, length, Option,
  none, some, ltb, leb, ◌==◌, min, str_eq, if◌then◌else◌,
}
use quacker.Table.{select, update, count}
use quacker.Store.Model.{Status, Step, Run, Db}
use quacker.Store.Claim.{QueueClaim, Worker, Claim, claim_due_multi}
use quacker.Store.Queries.{next_due}
use quacker.Engine.State.{Engine, World, Queue, is_queue, is_in, publish, transition}

-- idleCap: a backend that takes runs by other transactions is looked at more often.
abbrev pub idle_cap : Bool → ℕ
idle_cap external_tx = if external_tx then 1_000_000_000 else 60_000_000_000

-- idleWait
unfoldable pub idle_wait : ℕ → Bool → ℕ → Db → ℕ
idle_wait poll external_tx now db =
    let next = next_due db in
    if next == 0
    then idle_cap external_tx
    else if leb next now
    then poll
    else if ltb (idle_cap external_tx) (next - now)
    then idle_cap external_tx
    else next - now

-- The queues that are not paused, and what those with a free slot ask for.
unfoldable pub is_unpaused : Engine → Queue → Bool
is_unpaused e q = not (is_in q.name e.paused)

unfoldable pub has_slot : Engine → Queue → Bool
unfolding is_unpaused
has_slot e q = is_unpaused e q && ltb q.in_flight q.concurrency

abbrev pub request_of : Queue → QueueClaim
request_of q = record {
  name = q.name;
  limit = q.concurrency - q.in_flight;
  rate_limit = q.rate_limit;
  rate_window = q.rate_window;
}

unfoldable pub requests : Engine → List QueueClaim
unfolding has_slot
requests e = map request_of (select (has_slot e) e.queues)

-- One claim is taken up: its queue's counter, the announcements (the run's once per tick) and the executor.
unfoldable pub is_fresh_start : ℕ → Claim → Bool
is_fresh_start now c = elim c.run [ none ↦ false | some r ↦ r.started_at == now ]

unfoldable pub take_claim : ℕ → List String → Claim → Engine → Engine
unfolding publish is_fresh_start
take_claim now started c e =
    let told =
      publish
        (transition c.step.run_id c.step.name
          (if c.resumed then Status.suspended else Status.queued) Status.running "" now)
        (record e {
          queues =
              update (is_queue c.step.queue) (λ q. record q { in_flight = q.in_flight + 1 })
                e.queues;
        }) in
    if is_fresh_start now c && not (is_in c.step.run_id started)
    then publish (transition c.step.run_id "" Status.queued Status.running "" now) told
    else told

unfoldable pub take_claims :
    ℕ → List String → List QueueClaim → List Claim → Engine → Engine × List Claim
unfolding take_claim is_fresh_start
take_claims now started budget [] e = (e, [])
take_claims now started budget (c ∷ cs) e =
    let skipped = take_claims now started budget cs e in
    let started' = if is_fresh_start now c then c.step.run_id ∷ started else started in
    let (e', spawned) = take_claims now started' budget cs (take_claim now started c e) in
    if any (λ q. str_eq q.name c.step.queue) budget then (e', c ∷ spawned) else skipped

-- What a tick leaves: the world, the executors that it spawns, how long to wait, and whether work is in
-- flight.
pub record Ticked : Type 0 where
  pub world : World
  pub spawned : List Claim
  pub wait : ℕ
  pub busy : Bool

unfoldable pub claim_tick : ℕ → Bool → Worker → ℕ → World → Ticked
unfolding requests take_claims idle_wait
claim_tick poll external_tx worker now w =
    let (db, claims) = claim_due_multi worker now w.db (requests w.engine) in
    let (engine, spawned) = take_claims now [] (requests w.engine) claims w.engine in
    elim claims [
      | [] ↦ record {
        world = record { engine = w.engine; db = db };
        spawned = [];
        wait = idle_wait poll external_tx now db;
        busy = false;
      }
      | _ ∷ _ ↦ record {
        world = record { engine = engine; db = db };
        spawned = spawned;
        wait = poll;
        busy = true;
      }
    ]

-- tick
unfoldable pub tick : ℕ → Bool → Worker → ℕ → World → Ticked
unfolding requests is_unpaused idle_wait claim_tick
tick poll external_tx worker now w =
    let claimed = claim_tick poll external_tx worker now w in
    elim (requests w.engine) [
      | [] ↦
          if count (is_unpaused w.engine) w.engine.queues == 0
          then record {
            world = w;
            spawned = [];
            wait = idle_wait poll external_tx now w.db;
            busy = false;
          }
          else record { world = w; spawned = []; wait = poll; busy = true }
      | _ ∷ _ ↦ claimed
    ]
