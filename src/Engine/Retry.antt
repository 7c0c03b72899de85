-- ===== src/Engine/Retry.antt =====
-- Backoff of internal/engine/retry.go. Scaling by the float factor and drawing the jitter are
-- parameters; a duration that is not positive is 0.
use quacker.Prelude.{
  ℕ, zero, suc, ◌-◌, ◌≤◌, ◌≡◌, refl, ap, ◌∙◌, Bool, inl, inr, Bool-cases, ltb, leb, ◌==◌, min,
  if◌then◌else◌, arith,
}

pub record Backoff : Type 0 where
  pub base : ℕ
  pub max : ℕ
  pub jitters : Bool

-- withDefaults
unfoldable pub with_defaults : Backoff → Backoff
with_defaults b = record b {
  base = if b.base == 0 then 500_000_000 else b.base;
  max = if b.max == 0 then 30_000_000_000 else b.max;
}

module _ (scale jitter : ℕ → ℕ) where
  -- The loop of Delay, with its break.
  unfoldable pub grow : ℕ → ℕ → ℕ → ℕ
  grow zero max d = d
  grow (suc n) max d = let rest = grow n max (scale d) in if leb max (scale d) then max else rest

  -- Delay
  unfoldable pub delay : Backoff → ℕ → ℕ
  delay b attempt =
      let b = with_defaults b in
      let d = grow ((if attempt == 0 then 1 else attempt) - 1) b.max b.base in
      let capped = if ltb b.max d then b.max else d in if b.jitters then jitter capped else capped

  unfoldable pub scaled : ℕ → ℕ → ℕ
  scaled zero d = d
  scaled (suc n) d = scaled n (scale d)

  module _ (grows : (d : ℕ) → d ≤ scale d) where
    le-scaled : (n d : ℕ) → d ≤ scaled n d
    unfolding scaled
    le-scaled zero d = omega arith
    le-scaled (suc n) d = omega (arith, le-scaled n (scale d), grows d)

    retries_before : (attempt : ℕ) → (if attempt == 0 then 1 else attempt) - 1 ≡ attempt - 1
    retries_before attempt = ground arith

    min-grow : (n max d : ℕ) → min max (grow n max d) ≡ min max (scaled n d)
    unfolding grow scaled
    min-grow zero max d = refl
    min-grow (suc n) max d = elim (Bool-cases (leb max (scale d))) [
      | inl e ↦ simp e (ground (arith, le-scaled n (scale d)))
      | inr e ↦ simp e (min-grow n max (scale d))
    ]

    capped_growth :
        (n max d : ℕ)
        → (if ltb max (grow n max d) then max else grow n max d) ≡ min max (scaled n d)
    capped_growth n max d = cap max (grow n max d) ∙ min-grow n max d
      where
        cap : (m k : ℕ) → (if ltb m k then m else k) ≡ min m k
        cap m k = ground arith

    -- If scaling does not shrink a duration, the delay before retry `attempt` is the base (500 ms if
    -- unset) scaled attempt - 1 times and cut off at the maximum (30 s if unset), to which the jitter,
    -- if any, is then applied: the early exit of the loop loses nothing.
    pub delay_closed_form :
        (b : Backoff) (attempt : ℕ)
        → delay b attempt ≡ (
            if b.jitters
            then jitter (min (with_defaults b).max (scaled (attempt - 1) (with_defaults b).base))
            else min (with_defaults b).max (scaled (attempt - 1) (with_defaults b).base))
    unfolding delay with_defaults
    delay_closed_form b attempt =
        ap (λ d. if b.jitters then jitter d else d)
          (capped_growth _ (with_defaults b).max (with_defaults b).base
            ∙ ap (λ n. min (with_defaults b).max (scaled n (with_defaults b).base))
                (retries_before attempt))
