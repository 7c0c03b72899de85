-- ===== src/Engine/CronWait.antt =====
-- nextCronWait of internal/engine/cron.go: how long the cron loop sleeps.
use quacker.Prelude.{mem-cons_cases, ltb→lt, max}
use quacker.Prelude.{
  ℕ, ◌-◌, ◌+◌, ◌≤◌, ◌≡◌, ◌⊎◌, refl, false, inl, inr, Bool-cases, ltb, List, [], ◌∷◌, Memᴰ, arith,
  if◌then◌else◌,
}

abbrev pub cron_max_wait : ℕ
cron_max_wait = 200_000_000

abbrev pub cron_min_wait : ℕ
cron_min_wait = 1_000_000

-- The loop over the armed crons' next times. A time in the past is a wait of 0 here and negative in the
-- source; both are below the minimum.
unfoldable pub shortest_wait : ℕ → List ℕ → ℕ → ℕ
shortest_wait now [] wait = wait
shortest_wait now (next ∷ nexts) wait =
    shortest_wait now nexts (if ltb (next - now) wait then next - now else wait)

unfoldable pub next_cron_wait : ℕ → List ℕ → ℕ
next_cron_wait now nexts =
    let wait = shortest_wait now nexts cron_max_wait in
    if ltb wait cron_min_wait then cron_min_wait else wait

shortest_wait-le :
    (now : ℕ) (nexts : List ℕ) (wait : ℕ)
    → (shortest_wait now nexts wait ≤ wait)
      × ((next : ℕ) → Memᴰ next nexts → shortest_wait now nexts wait ≤ next - now)
unfolding shortest_wait
shortest_wait-le now [] wait = (omega arith, λ next m. elim m [ ])
shortest_wait-le now (n ∷ ns) wait = elim (Bool-cases (ltb (n - now) wait)) [
  | inl e ↦
      let (a, b) = shortest_wait-le now ns (n - now) in
      simp e (
        omega (arith, a, ltb→lt (n - now) wait e),
        λ next m. elim (mem-cons_cases m) [ inl same ↦ rw same a | inr rest ↦ b next rest ],
      )
  | inr e ↦
      let (a, b) = shortest_wait-le now ns wait in
      simp e (
        a,
        λ next m. elim (mem-cons_cases m) [
          | inl same ↦ rw same (kept n wait e a)
          | inr rest ↦ b next rest
        ],
      )
]
  where
    kept : (n wait : ℕ) {k : ℕ} → ltb (n - now) wait ≡ false → k ≤ wait → k ≤ n - now
    kept n wait e a = ground arith

-- The wait is that of the loop's start or of one of the crons.
shortest_wait-attained :
    (now : ℕ) (nexts : List ℕ) (wait : ℕ)
    → (shortest_wait now nexts wait ≡ wait)
      ⊎ ((next : ℕ) × Memᴰ next nexts × (shortest_wait now nexts wait ≡ next - now))
unfolding shortest_wait
shortest_wait-attained now [] wait = inl refl
shortest_wait-attained now (n ∷ ns) wait = elim (Bool-cases (ltb (n - now) wait)) [
  | inl e ↦ rw e (elim (shortest_wait-attained now ns (n - now)) [
    | inl same ↦ inr (n, Memᴰ.head refl, same)
    | inr (k, m, same) ↦ inr (k, Memᴰ.tail m, same)
  ])
  | inr e ↦ rw e (elim (shortest_wait-attained now ns wait) [
    | inl same ↦ inl same
    | inr (k, m, same) ↦ inr (k, Memᴰ.tail m, same)
  ])
]

-- The times at which the loop has to wake: 200 ms from now, and each armed cron's next time.
abbrev pub wake_times : ℕ → List ℕ → List ℕ
wake_times now nexts = (now + cron_max_wait) ∷ nexts

-- The cron loop sleeps until the first of the times at which it has to wake, and at least 1 ms: whatever
-- crons are armed, overdue ones or none included, the sleep is between 1 ms and 200 ms, it goes past none
-- of those times but for the 1 ms, and it is the time left to one of them, or 1 ms if that is less.
pub next_cron_wait_bounds :
    (now : ℕ) (nexts : List ℕ) (next : ℕ)
    → Memᴰ next (wake_times now nexts)
    → (cron_min_wait ≤ next_cron_wait now nexts)
      × (next_cron_wait now nexts ≤ cron_max_wait)
      × (now + next_cron_wait now nexts ≤ max next (now + cron_min_wait))
      × ((first : ℕ) × Memᴰ first (wake_times now nexts)
          × (next_cron_wait now nexts ≡ max (first - now) cron_min_wait))
unfolding next_cron_wait
next_cron_wait_bounds now nexts next m =
    let (top, each) = shortest_wait-le now nexts cron_max_wait in
    let below : shortest_wait now nexts cron_max_wait ≤ next - now = elim (mem-cons_cases m) [
      | inl same ↦ omega (arith, top, same)
      | inr k ↦ each next k
    ] in
    let (first, k, same) = attained (shortest_wait-attained now nexts cron_max_wait) in
    elim (Bool-cases (ltb (shortest_wait now nexts cron_max_wait) cron_min_wait)) [
      | inl e ↦
          let short = ltb→lt _ _ e in
          simp e (omega arith, omega arith, omega arith, (first, k, omega (arith, same, short)))
      | inr e ↦
          let long = ltb_false _ _ e in
          simp e (long, top, omega (arith, below, long), (first, k, omega (arith, same, long)))
    ]
  where
    ltb_false : (a b : ℕ) → ltb a b ≡ false → b ≤ a
    ltb_false a b e = ground arith

    attained :
        (shortest_wait now nexts cron_max_wait ≡ cron_max_wait)
          ⊎ ((k : ℕ) × Memᴰ k nexts × (shortest_wait now nexts cron_max_wait ≡ k - now))
        → (first : ℕ) × Memᴰ first (wake_times now nexts)
          × (shortest_wait now nexts cron_max_wait ≡ first - now)
    attained (inl e) = (now + cron_max_wait, Memᴰ.head refl, omega (arith, e))
    attained (inr (k, m, e)) = (k, Memᴰ.tail m, e)
