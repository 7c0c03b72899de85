-- ===== src/Store/Queries/Due.antt =====
-- NextDue, against what a claim may start.
use quacker.Prelude.{zero, suc, take}
use quacker.Prelude.{
  ℕ, ◌≤◌, ◌<◌, ◌≡◌, ◌⊎◌, refl, Bool, true, false, ◌&&◌, inl, inr, Bool-cases, &&-true, &&-intro,
  List, [], ◌∷◌, Memᴰ, map, ltb, leb, ltb→lt, leb→le, mem-map_intro, mem-append_left,
  mem-append_right, mem-cons_cases, mem-append_cases, mem-map_cases, arith,
}
use quacker.Table.{select, order_by}
use quacker.Table.Laws.{mem-select, mem-select_intro}
use quacker.Store.Model.{Status, is, is_iff, Step, Db}
use quacker.Store.Claim.{
  Worker, QueueClaim, is_due, is_candidate, claim_candidates, claim_limit, claim_each, claim_queue,
  claim_queues, claim_due_multi, claimed_before,
}
use quacker.Store.Queries.{scheduled_times, minimum, next_due}

minimum-le : (x : ℕ) (ts : List ℕ) (t : ℕ) → (t ≡ x) ⊎ Memᴰ t ts → minimum x ts ≤ t
unfolding minimum
minimum-le x [] t (inl e) = omega arith
minimum-le x [] t (inr m) = elim m [ ]
minimum-le x (y ∷ ys) t h = elim (Bool-cases (ltb y x)) [
  | inl e ↦ simp e (elim h [
    | inl same ↦ let k = minimum-le y ys y (inl refl) in let lt = ltb→lt y x e in omega arith
    | inr m ↦ minimum-le y ys t (mem-cons_cases m)
  ])
  | inr e ↦ simp e (elim h [
    | inl same ↦ minimum-le x ys t (inl same)
    | inr m ↦ elim (mem-cons_cases m) [
      | inl same ↦ let k = minimum-le x ys x (inl refl) in let ge = not_lt y x e in omega arith
      | inr n ↦ minimum-le x ys t (inr n)
    ]
  ])
]
  where
    not_lt : (a b : ℕ) → ltb a b ≡ false → b ≤ a
    not_lt a b h = ground arith

minimum-pos : (x : ℕ) (ts : List ℕ) → 0 < x → ((t : ℕ) → Memᴰ t ts → 0 < t) → 0 < minimum x ts
unfolding minimum
minimum-pos x [] h all_pos = h
minimum-pos x (y ∷ ys) h all_pos = elim (Bool-cases (ltb y x)) [
  | inl e ↦ simp e (minimum-pos y ys (all_pos y (Memᴰ.head refl)) (λ t m. all_pos t (Memᴰ.tail m)))
  | inr e ↦ simp e (minimum-pos x ys h (λ t m. all_pos t (Memᴰ.tail m)))
]

-- Every QUEUED step has a start time; 0 would read as "unset".
abbrev pub HasStartTimes : List Step → Type 0
HasStartTimes steps = (s : Step) → Memᴰ s steps → s.status ≡ Status.queued → 0 < s.run_at

scheduled_pos :
    (steps : List Step) → HasStartTimes steps → (t : ℕ) → Memᴰ t (scheduled_times steps) → 0 < t
unfolding scheduled_times
scheduled_pos steps timed t m = elim (mem-append_cases t _ _ m) [
  | inl n ↦
      let (s, k, e) = mem-map_cases (λ s. s.run_at) t _ n in
      let (in_table, q) = mem-select (λ s. is Status.queued s.status) s steps k in
      rw e (timed s in_table ((is_iff Status.queued s.status).0 q))
  | inr n ↦
      let (s, k, e) = mem-map_cases (λ s. s.resume_at) t _ n in
      let (_, q) = mem-select (λ s. is Status.suspended s.status && ltb 0 s.resume_at) s steps k in
      rw e (ltb→lt 0 s.resume_at (&&-true _ _ q).1)
]

-- A due step has a scheduled time that has come.
due_time :
    (now : ℕ) (s : Step) (steps : List Step)
    → Memᴰ s steps
    → is_due now s ≡ true
    → (t : ℕ) × Memᴰ t (scheduled_times steps) × (t ≤ now)
unfolding is_due scheduled_times
due_time now s steps m h = elim (Bool-cases (is Status.queued s.status && leb s.run_at now)) [
  | inl e ↦
      let (q, le) = &&-true _ _ e in
      (
        s.run_at,
        mem-append_left s.run_at _ _ (
            mem-map_intro (λ x. x.run_at) s _
              (mem-select_intro (λ x. is Status.queued x.status) s steps m q)),
        leb→le s.run_at now le,
      )
  | inr e ↦
      let later : (is Status.suspended s.status && (ltb 0 s.resume_at && leb s.resume_at now))
          ≡ true =
        ground arith in
      let (q, rest) = &&-true _ _ later in
      let (pos, le) = &&-true _ _ rest in
      (
        s.resume_at,
        mem-append_right s.resume_at
            (map (λ x. x.run_at) (select (λ x. is Status.queued x.status) steps)) _
            (mem-map_intro (λ x. x.resume_at) s _
              (mem-select_intro (λ x. is Status.suspended x.status && ltb 0 x.resume_at) s steps m
                (&&-intro _ _ q pos))),
        leb→le s.resume_at now le,
      )
]

next_due-bounds :
    (db : Db) (t : ℕ)
    → HasStartTimes db.steps
    → Memᴰ t (scheduled_times db.steps)
    → (0 < next_due db) × (next_due db ≤ t)
unfolding next_due
next_due-bounds db t timed m = bounds (scheduled_times db.steps) refl m
  where
    bounds :
        (ts : List ℕ)
        → scheduled_times db.steps ≡ ts
        → Memᴰ t ts
        → (0 < next_due db) × (next_due db ≤ t)
    bounds [] e n = elim n [ ]
    bounds (x ∷ xs) e n =
        let pos : (y : ℕ) → Memᴰ y (x ∷ xs) → 0 < y =
          λ y k. scheduled_pos db.steps timed y (rw e k) in
        rw (e, next_due)
          (
            minimum-pos x xs (pos x (Memᴰ.head refl)) (λ y k. pos y (Memᴰ.tail k)),
            minimum-le x xs t (mem-cons_cases n),
          )

-- If nothing is scheduled, or what is lies ahead, no step of the table is due.
none_due :
    (now : ℕ) (db : Db) (s : Step)
    → HasStartTimes db.steps
    → (next_due db ≡ 0) ⊎ (now < next_due db)
    → Memᴰ s db.steps
    → is_due now s ≡ false
none_due now db s timed sleep m = elim (Bool-cases (is_due now s)) [
  | inl e ↦
      let (t, k, le) = due_time now s db.steps m e in
      let (pos, least) = next_due-bounds db t timed k in
      elim sleep [ inl z ↦ absurd (omega arith) | inr ahead ↦ absurd (omega arith) ]
  | inr e ↦ e
]

select-none :
    {A : Type 0} (p : A → Bool) (xs : List A)
    → ((x : A) → Memᴰ x xs → p x ≡ false)
    → select p xs ≡ []
unfolding select
select-none p [] h = refl
select-none p (x ∷ xs) h =
    simp (h x (Memᴰ.head refl), select-none p xs (λ y m. h y (Memᴰ.tail m))) refl

claim_queue-idle :
    (w : Worker) (now : ℕ) (q : QueueClaim) (db : Db)
    → ((s : Step) → Memᴰ s db.steps → is_due now s ≡ false)
    → claim_queue w now db q ≡ (db, [])
unfolding claim_queue claim_candidates is_candidate
claim_queue-idle w now q db idle =
    let none_found : select (is_candidate db q.name now w.labels) db.steps ≡ [] =
      select-none (is_candidate db q.name now w.labels) db.steps
        (λ s m. let k = idle s m in ground arith) in
    simp none_found (no_candidates (claim_limit db q now))
  where
    no_candidates : (n : ℕ) → claim_each w now db (take n (order_by claimed_before [])) ≡ (db, [])
    no_candidates zero = unfold claim_each order_by in refl
    no_candidates (suc n) = unfold claim_each order_by in refl

claim_queues-idle :
    (w : Worker) (now : ℕ) (qs : List QueueClaim) (db : Db)
    → ((s : Step) → Memᴰ s db.steps → is_due now s ≡ false)
    → claim_queues w now db qs ≡ (db, [])
unfolding claim_queues
claim_queues-idle w now [] db idle = refl
claim_queues-idle w now (q ∷ qs) db idle =
    simp (claim_queue-idle w now q db idle, claim_queues-idle w now qs db idle)

-- The scheduler may sleep until NextDue: if every QUEUED step has a start time, and NextDue is 0 or
-- lies after `now`, then a claim at `now` on any queues starts nothing and leaves the database as it is.
pub claim_due_multi-next_due :
    (w : Worker) (now : ℕ) (qs : List QueueClaim) (db : Db)
    → HasStartTimes db.steps
    → (next_due db ≡ 0) ⊎ (now < next_due db)
    → claim_due_multi w now db qs ≡ (db, [])
unfolding claim_due_multi
claim_due_multi-next_due w now qs db timed sleep =
    rw (claim_queues-idle w now qs db (λ s m. none_due now db s timed sleep m)) refl
