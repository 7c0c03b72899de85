-- ===== src/Engine/Tick/Slots.antt =====
-- The slots of the queues, over a tick.
use quacker.Prelude.{
  ◌==◌, ℕ, ◌+◌, ◌-◌, ◌≤◌, ◌≡◌, refl, sym, ◌∙◌, ap, subst, String, Bool, true, false, not, ◌&&◌,
  List, [], ◌∷◌, map, inl, inr, Bool-cases, Option-cases, Memᴰ, str_eq, eq_iff, if◌then◌else◌,
  arith, any,
}
use quacker.Table.{select, update, count, first}
use quacker.Table.Laws.{count_member, mem-update}
use quacker.Store.Model.{Db}
use quacker.Store.Claim.{QueueClaim, Worker, Claim, claim_queues, attach_run, claim_due_multi}
use quacker.Store.Claim.Shares.{is_for, shares, claim_queues-count}
use quacker.Engine.State.{Engine, World, Queue, is_queue, is_in, publish}
use quacker.Engine.Tick.{
  request_of, requests, has_slot, is_unpaused, take_claim, take_claims, is_fresh_start, claim_tick,
  tick,
}

-- Queues run no more steps than they may.
abbrev pub IsWithinSlots : List Queue → Type 0
IsWithinSlots queues = (q : Queue) → Memᴰ q queues → q.in_flight ≤ q.concurrency

count-attach_run :
    (db : Db) (now : ℕ) (n : String) (cs : List Claim)
    → count (is_for n) (map (attach_run db now) cs) ≡ count (is_for n) cs
unfolding count attach_run
count-attach_run db now n [] = refl
count-attach_run db now n (c ∷ cs) =
    elim (Option-cases (first (λ r. str_eq r.id c.step.run_id) db.runs)) [
      | inl e ↦ rw (e, attach_run) (ground (arith, count-attach_run db now n cs))
      | inr (r, e) ↦ rw (e, attach_run) (ground (arith, count-attach_run db now n cs))
    ]

shares_none :
    (e : Engine) (n : String) (queues : List Queue)
    → count (is_queue n) queues ≡ 0
    → shares n (map request_of (select (has_slot e) queues)) ≡ 0
unfolding shares select count
shares_none e n [] h = refl
shares_none e n (x ∷ queues) h =
    let rest = shares_none e n queues (ground (arith, h)) in
    let other : str_eq x.name n ≡ false = ground (arith, h) in
    elim (Bool-cases (has_slot e x)) [
      | inl k ↦ rw (k, other) (omega (arith, rest))
      | inr k ↦ rw k rest
    ]

-- A queue asks for its free slots.
shares-requests :
    (e : Engine) (q : Queue) (queues : List Queue)
    → Memᴰ q queues
    → count (is_queue q.name) queues ≤ 1
    → q.in_flight ≤ q.concurrency
    → q.in_flight + shares q.name (map request_of (select (has_slot e) queues)) ≤ q.concurrency
unfolding shares select count
shares-requests e q [] m h le = elim m [ ]
shares-requests e q (x ∷ queues) (Memᴰ.head same) h le =
    let hit : str_eq x.name q.name ≡ true = (eq_iff _ _).1 (ap (λ y. y.name) (sym same)) in
    let rest = shares_none e q.name queues (ground (arith, h, hit)) in
    let room : x.concurrency - x.in_flight ≡ q.concurrency - q.in_flight =
      ap (λ y. y.concurrency - y.in_flight) (sym same) in
    elim (Bool-cases (has_slot e x)) [
      | inl k ↦ rw (k, hit) (omega (arith, rest, room, le))
      | inr k ↦ rw k (omega (arith, rest, le))
    ]
shares-requests e q (x ∷ queues) (Memᴰ.tail m) h le =
    let present = count_member (is_queue q.name) q queues m ((eq_iff _ _).1 refl) in
    let other : str_eq x.name q.name ≡ false = ground (arith, h, present) in
    let rest = shares-requests e q queues m (ground (arith, h)) le in
    elim (Bool-cases (has_slot e x)) [
      | inl k ↦ rw (k, other) (omega (arith, rest))
      | inr k ↦ rw k rest
    ]

take_claim-queues :
    (now : ℕ) (started : List String) (c : Claim) (e : Engine)
    → (take_claim now started c e).queues
      ≡ update (is_queue c.step.queue) (λ q. record q { in_flight = q.in_flight + 1 }) e.queues
unfolding take_claim publish
take_claim-queues now started c e =
    elim (Bool-cases (is_fresh_start now c && not (is_in c.step.run_id started))) [
      | inl k ↦ simp k refl
      | inr k ↦ simp k refl
    ]

-- What the claims of a tick make of a queue.
record Counted (q' : Queue) (queues : List Queue) (cs : List Claim) : Type 0 where
  q : Queue
  mem : Memᴰ q queues
  name : q'.name ≡ q.name
  concurrency : q'.concurrency ≡ q.concurrency
  in_flight : q'.in_flight ≤ q.in_flight + count (is_for q.name) cs

take_claims-queue :
    (now : ℕ) (budget : List QueueClaim) (cs : List Claim) (started : List String) (e : Engine)
    (q' : Queue)
    → Memᴰ q' (take_claims now started budget cs e).0.queues
    → Counted q' e.queues cs
unfolding take_claims count
take_claims-queue now budget [] started e q' m = record {
  q = q';
  mem = m;
  name = refl;
  concurrency = refl;
  in_flight = omega arith;
}
take_claims-queue now budget (c ∷ cs) started e q' m =
    elim (Bool-cases (any (λ q. str_eq q.name c.step.queue) budget)) [
      | inr skip ↦
          let k = take_claims-queue now budget cs started e q' (simp skip at m) in
          record {
            q = k.q;
            mem = k.mem;
            name = k.name;
            concurrency = k.concurrency;
            in_flight = ground (arith, k.in_flight);
          }
      | inl hit ↦
          let k =
            take_claims-queue now budget cs
              (if is_fresh_start now c then c.step.run_id ∷ started else started)
              (take_claim now started c e) q' (simp hit at m) in
          let (q0, m0, same) =
            mem-update (is_queue c.step.queue) (λ q. record q { in_flight = q.in_flight + 1 }) k.q
              e.queues (subst (λ qs. Memᴰ k.q qs) (take_claim-queues now started c e) k.mem) in
          counted k.q q0 (k.name) k.concurrency k.in_flight m0 same
    ]
  where
    counted :
        (q1 q0 : Queue)
        → q'.name ≡ q1.name
        → q'.concurrency ≡ q1.concurrency
        → q'.in_flight ≤ q1.in_flight + count (is_for q1.name) cs
        → Memᴰ q0 e.queues
        → q1 ≡ (if is_queue c.step.queue q0 then record q0 { in_flight = q0.in_flight + 1 } else q0)
        → Counted q' e.queues (c ∷ cs)
    counted q1 q0 n k le m0 same = elim (Bool-cases (is_queue c.step.queue q0)) [
      | inl hit ↦
          let now_one : q1 ≡ record q0 { in_flight = q0.in_flight + 1 } = rw hit at same in
          let here : str_eq c.step.queue q0.name ≡ true =
            (eq_iff _ _).1 (sym ((eq_iff _ _).0 hit)) in
          let bound : q'.in_flight ≤ (q0.in_flight + 1) + count (is_for q0.name) cs =
            subst (λ y. q'.in_flight ≤ y.in_flight + count (is_for y.name) cs) now_one le in
          record {
            q = q0;
            mem = m0;
            name = n ∙ ap (λ y. y.name) now_one;
            concurrency = k ∙ ap (λ y. y.concurrency) now_one;
            in_flight = rw here (omega (arith, bound));
          }
      | inr miss ↦
          let kept : q1 ≡ q0 = rw miss at same in
          let bound : q'.in_flight ≤ q0.in_flight + count (is_for q0.name) cs =
            subst (λ y. q'.in_flight ≤ y.in_flight + count (is_for y.name) cs) kept le in
          record {
            q = q0;
            mem = m0;
            name = n ∙ ap (λ y. y.name) kept;
            concurrency = k ∙ ap (λ y. y.concurrency) kept;
            in_flight = ground (arith, bound);
          }
    ]

claim_tick-IsWithinSlots :
    (poll : ℕ) (external_tx : Bool) (worker : Worker) (now : ℕ) (w : World)
    → ((n : String) → count (is_queue n) w.engine.queues ≤ 1)
    → IsWithinSlots w.engine.queues
    → IsWithinSlots (claim_tick poll external_tx worker now w).world.engine.queues
unfolding claim_tick claim_due_multi requests
claim_tick-IsWithinSlots poll external_tx worker now w unique inv =
    split (claim_due_multi worker now w.db (requests w.engine)).1 refl
  where
    asked :
        (q : Queue)
        → Memᴰ q w.engine.queues
        → q.in_flight + shares q.name (requests w.engine) ≤ q.concurrency
    asked q m = shares-requests w.engine q w.engine.queues m (unique q.name) (inv q m)

    split :
        (cs : List Claim)
        → (claim_due_multi worker now w.db (requests w.engine)).1 ≡ cs
        → IsWithinSlots (claim_tick poll external_tx worker now w).world.engine.queues
    split [] k = rw (k, claim_tick) inv
    split (c ∷ cs) k =
        rw (k, claim_tick)
          (λ q' m.
            let t =
              take_claims-queue now (requests w.engine)
                (claim_due_multi worker now w.db (requests w.engine)).1 [] w.engine q' m in
            let total = claim_queues-count worker now w.db (requests w.engine) t.q.name in
            let attached =
              count-attach_run (claim_queues worker now w.db (requests w.engine)).0 now t.q.name
                (claim_queues worker now w.db (requests w.engine)).1 in
            let free = asked t.q t.mem in
            let flight = t.in_flight in
            let same = t.concurrency in omega (arith, total, attached, free, flight, same))

-- A tick starts no more steps than there are free slots: if queue names are unique and no queue has more
-- executions in flight than its concurrency, then none has after the tick.
pub tick-IsWithinSlots :
    (poll : ℕ) (external_tx : Bool) (worker : Worker) (now : ℕ) (w : World)
    → ((n : String) → count (is_queue n) w.engine.queues ≤ 1)
    → IsWithinSlots w.engine.queues
    → IsWithinSlots (tick poll external_tx worker now w).world.engine.queues
unfolding tick
tick-IsWithinSlots poll external_tx worker now w unique inv = split (requests w.engine) refl
  where
    split :
        (qs : List QueueClaim)
        → requests w.engine ≡ qs
        → IsWithinSlots (tick poll external_tx worker now w).world.engine.queues
    split [] k = elim (Bool-cases (count (is_unpaused w.engine) w.engine.queues == 0)) [
      | inl e ↦ rw (k, e, tick) inv
      | inr e ↦ rw (k, e, tick) inv
    ]
    split (q ∷ qs) k =
        rw (k, tick) (claim_tick-IsWithinSlots poll external_tx worker now w unique inv)
