-- ===== src/Bus.antt =====
-- The in-process event bus of internal/bus/bus.go: subscribers with bounded channels. Subscribers are told
-- apart by a number, as Go's are by their address.
use quacker.Prelude.{append-nil, append-snoc}
use quacker.Prelude.{
  ℕ, suc, ◌+◌, ◌≤◌, ◌≡◌, refl, sym, subst, String, ℤ, pos, negsuc, zero, Bool, true, ◌||◌, List, [],
  ◌∷◌, ◌++◌, map, length, ltb, ◌==◌, str_eq, if◌then◌else◌, Memᴰ, inl, inr, Bool-cases, arith,
  mem-map_intro, length-append,
}
use quacker.Table.{select, count, delete}
use quacker.Engine.State.{Notice}

pub record Sub : Type 0 where
  pub id : ℕ
  pub run_id : String  -- "" for all runs
  pub buffer : ℕ
  pub channel : List Notice

pub record Bus : Type 0 where
  pub subs : List Sub
  pub next_id : ℕ

abbrev pub buffer_of : ℤ → ℕ
buffer_of (pos zero) = 256
buffer_of (pos (suc n)) = suc n
buffer_of (negsuc n) = 256

-- Subscribe, and the cancel function that it returns
unfoldable pub subscribe : String → ℤ → Bus → Bus
subscribe run_id buffer b = record {
  subs =
      b.subs
      ++ record { id = b.next_id; run_id = run_id; buffer = buffer_of buffer; channel = [] } ∷ [];
  next_id = b.next_id + 1;
}

unfoldable pub unsubscribe : ℕ → Bus → Bus
unsubscribe id b = record b { subs = delete (λ s. s.id == id) b.subs }

abbrev pub wants : Sub → Notice → Bool
wants s n = str_eq s.run_id "" || str_eq s.run_id n.run_id

-- A send that does not block: a full channel drops the event.
unfoldable pub offer : Notice → Sub → Sub
offer n s =
    if wants s n
    then (if ltb (length s.channel) s.buffer then record s { channel = s.channel ++ n ∷ [] } else s)
    else s

-- Publish
unfoldable pub publish_event : Notice → Bus → Bus
unfolding offer
publish_event n b = record b { subs = map (offer n) b.subs }

-- Events published one after another.
unfoldable pub publish_events : List Notice → Bus → Bus
publish_events [] b = b
publish_events (n ∷ ns) b = publish_events ns (publish_event n b)

-- A subscriber with room misses nothing: if a subscriber's channel has room for the events published that are
-- of its run (of any run, if it follows all), then it holds exactly those after them, in their order,
-- whatever the other subscribers do.
pub publish_events_delivered :
    (ns : List Notice) (b : Bus) (s : Sub)
    → Memᴰ s b.subs
    → length s.channel + count (wants s) ns ≤ s.buffer
    → Memᴰ (record s { channel = s.channel ++ select (wants s) ns }) (publish_events ns b).subs
unfolding publish_events publish_event offer select count
publish_events_delivered [] b s m room =
    subst (λ c. Memᴰ (record s { channel = c }) b.subs) (sym (append-nil s.channel)) m
publish_events_delivered (n ∷ ns) b s m room =
    let next = publish_event n b in
    let here = mem-map_intro (offer n) s b.subs m in
    elim (Bool-cases (wants s n)) [
      | inl e ↦
          let free : ltb (length s.channel) s.buffer ≡ true = ground (arith, room, e) in
          let taken : Sub = record s { channel = s.channel ++ n ∷ [] } in
          let same : offer n s ≡ taken = simp (e, free) refl in
          let size = length-append s.channel (n ∷ []) in
          let rest =
            publish_events_delivered ns next taken (subst (λ x. Memᴰ x next.subs) same here)
              (ground (arith, room, e, size)) in
          simp e (
            subst (λ c. Memᴰ (record s { channel = c }) (publish_events ns next).subs)
              (append-snoc s.channel n (select (wants s) ns)) rest)
      | inr e ↦
          let same : offer n s ≡ s = simp e refl in
          let rest =
            publish_events_delivered ns next s (subst (λ x. Memᴰ x next.subs) same here)
              (ground (arith, room, e)) in
          simp e rest
    ]
