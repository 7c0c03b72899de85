-- ===== src/Engine/Examples.antt =====
-- The theorems on the engine's decisions at concrete inputs.
use quacker.Prelude.{
  ℕ, ◌+◌, ◌*◌, ◌-◌, ◌≤◌, ◌≡◌, true, List, [], ◌∷◌, Memᴰ, arith, min, max, if◌then◌else◌,
}
use quacker.Prelude.{refl}
use quacker.Engine.Retry.{grow, Backoff, with_defaults, delay, scaled, delay_closed_form}
use quacker.Engine.CronWait.{
  cron_min_wait, cron_max_wait, next_cron_wait, wake_times, shortest_wait, next_cron_wait_bounds,
}

abbrev double : ℕ → ℕ
double d = d * 2

abbrev tenth_more : ℕ → ℕ
tenth_more d = d + 100

double-grows : (d : ℕ) → d ≤ double d
double-grows d = omega arith

abbrev quick : Backoff
quick = record { base = 1000; max = 5000; jitters = true }

delay_closed_form_example : delay double tenth_more quick 4 ≡ (
    if quick.jitters
    then tenth_more (
        min (with_defaults quick).max (scaled double tenth_more (4 - 1) (with_defaults quick).base))
    else min
        (with_defaults quick).max
        (scaled double tenth_more (4 - 1) (with_defaults quick).base))
delay_closed_form_example = delay_closed_form double tenth_more double-grows quick 4

-- The jitter comes after the cap.
delay_test : delay double tenth_more quick 4 ≡ 5100
unfolding delay with_defaults grow
delay_test = refl

-- One cron is overdue.
abbrev armed : List ℕ
armed = 900_000_000 ∷ 1_400_000_000 ∷ []

next_cron_wait_bounds_example :
    (cron_min_wait ≤ next_cron_wait 1_000_000_000 armed)
    × (next_cron_wait 1_000_000_000 armed ≤ cron_max_wait)
    × (1_000_000_000 + next_cron_wait 1_000_000_000 armed
        ≤ max 900_000_000 (1_000_000_000 + cron_min_wait))
    × ((first : ℕ) × Memᴰ first (wake_times 1_000_000_000 armed)
        × (next_cron_wait 1_000_000_000 armed ≡ max (first - 1_000_000_000) cron_min_wait))
next_cron_wait_bounds_example =
    next_cron_wait_bounds 1_000_000_000 armed 900_000_000 (Memᴰ.tail (Memᴰ.head refl))

overdue_test : next_cron_wait 1_000_000_000 armed ≡ cron_min_wait
unfolding next_cron_wait shortest_wait
overdue_test = refl
