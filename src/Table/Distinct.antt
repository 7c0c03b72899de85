-- ===== src/Table/Distinct.antt =====
-- Rows with pairwise different keys, by a test.
use quacker.Prelude.{
  ◌≤◌, ◌≡◌, Bool, true, not, ◌&&◌, List, [], ◌∷◌, any, any-mem, arith, inl, inr, Bool-cases,
  &&-true,
}
use quacker.Table.{count}
use quacker.Table.Laws.{count_cases}

module _ {ℓ} {A : Type ℓ} where
  unfoldable pub distinct : (A → A → Bool) → List A → Bool
  distinct same [] = true
  distinct same (x ∷ xs) = not (any (same x) xs) && distinct same xs

  pub count-distinct-le :
      (same : A → A → Bool) (p : A → Bool) (xs : List A)
      → ((x y : A) → p x ≡ true → p y ≡ true → same x y ≡ true)
      → distinct same xs ≡ true
      → count p xs ≤ 1
  unfolding distinct count
  count-distinct-le same p [] agree h = omega arith
  count-distinct-le same p (x ∷ xs) agree h =
      let (fresh, rest) = &&-true _ _ h in
      elim (Bool-cases (p x)) [
        | inl e ↦ elim (count_cases p xs) [
          | inl z ↦ simp e (omega (arith, z))
          | inr (y, m, k) ↦
              let found : any (same x) xs ≡ true = any-mem (same x) xs y m (agree x y e k) in
              absurd (ground arith)
        ]
        | inr e ↦ simp e (count-distinct-le same p xs agree rest)
      ]
