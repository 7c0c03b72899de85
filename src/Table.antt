-- ===== src/Table.antt =====
-- SQL statements on a table that is a list of rows: the part of the database that the statements of
-- internal/store use. A WHERE clause is a Boolean test on a row.
pub mod Laws
pub mod Distinct
use quacker.Prelude.{
  ℕ, zero, suc, Bool, true, false, List, [], ◌∷◌, Option, none, some, if◌then◌else◌, any,
}

module _ {ℓ} {A : Type ℓ} where
  -- SELECT ... WHERE p
  unfoldable pub select : (A → Bool) → List A → List A
  select p [] = []
  select p (x ∷ xs) = let rest = select p xs in if p x then x ∷ rest else rest

  -- SELECT ... WHERE p LIMIT 1
  unfoldable pub first : (A → Bool) → List A → Option A
  first p [] = none
  first p (x ∷ xs) = let rest = first p xs in if p x then some x else rest

  -- SELECT COUNT(*) ... WHERE p, and the rows that a statement with this WHERE affects
  unfoldable pub count : (A → Bool) → List A → ℕ
  count p [] = 0
  count p (x ∷ xs) = let rest = count p xs in if p x then suc rest else rest

  -- UPDATE ... SET f WHERE p
  unfoldable pub update : (A → Bool) → (A → A) → List A → List A
  update p f [] = []
  update p f (x ∷ xs) = (if p x then f x else x) ∷ update p f xs

  -- DELETE ... WHERE p
  unfoldable pub delete : (A → Bool) → List A → List A
  delete p [] = []
  delete p (x ∷ xs) = let rest = delete p xs in if p x then rest else x ∷ rest

  -- DELETE ... WHERE key IN (SELECT ... WHERE p LIMIT n)
  unfoldable pub delete_limit : (A → Bool) → ℕ → List A → List A
  delete_limit p zero xs = xs
  delete_limit p (suc n) [] = []
  delete_limit p (suc n) (x ∷ xs) =
      let hit = delete_limit p n xs in
      let miss = x ∷ delete_limit p (suc n) xs in if p x then hit else miss

  -- ORDER BY: rows that the order does not tell apart stay in table order.
  unfoldable pub insert_by : (A → A → Bool) → A → List A → List A
  insert_by before x [] = x ∷ []
  insert_by before x (y ∷ ys) =
      let later = y ∷ insert_by before x ys in if before y x then later else x ∷ y ∷ ys

  unfoldable pub order_by : (A → A → Bool) → List A → List A
  unfolding insert_by
  order_by before [] = []
  order_by before (x ∷ xs) = insert_by before x (order_by before xs)
