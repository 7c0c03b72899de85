-- ===== src/Prelude/Lists.antt =====
-- Lists measured and tested by native numbers and Booleans.
use Prim.Native.Nat.{ℕ, zero, suc, ◌+◌, ◌≤◌}
use mathlib.Core.Path.{◌≡◌, refl, ap}
use mathlib.Core.Logic.{◌⊎◌, inl, inr}
use mathlib.Core.Bool.{Bool, true, false, ◌&&◌, ◌||◌}
use mathlib.Core.Option.{Option, none, some}
use mathlib.Core.List.{List, [], ◌∷◌, ◌++◌, map, Memᴰ}
use native.Mathlib.Omega.{arith}
use quacker.Prelude.Tests.{Bool-cases}

module _ {ℓ} {A : Type ℓ} where
  abbrev pub length : List A → ℕ
  length [] = 0
  length (x ∷ xs) = suc (length xs)

  abbrev pub take : ℕ → List A → List A
  take zero xs = []
  take (suc n) [] = []
  take (suc n) (x ∷ xs) = x ∷ take n xs

  abbrev pub drop : ℕ → List A → List A
  drop zero xs = xs
  drop (suc n) [] = []
  drop (suc n) (x ∷ xs) = drop n xs

  abbrev pub get_elem? : List A → ℕ → Option A
  get_elem? [] i = none
  get_elem? (x ∷ xs) zero = some x
  get_elem? (x ∷ xs) (suc i) = get_elem? xs i

  -- Boolean quantifiers over a list.
  unfoldable pub any : (A → Bool) → List A → Bool
  any p [] = false
  any p (x ∷ xs) = p x || any p xs

  unfoldable pub all : (A → Bool) → List A → Bool
  all p [] = true
  all p (x ∷ xs) = p x && all p xs

module _ {ℓ} {A : Type ℓ} where
  pub mem-cons_cases : {x y : A} {ys : List A} → Memᴰ x (y ∷ ys) → (x ≡ y) ⊎ Memᴰ x ys
  mem-cons_cases (Memᴰ.head e) = inl e
  mem-cons_cases (Memᴰ.tail m) = inr m

  pub length-take-le : (n : ℕ) (xs : List A) → length (take n xs) ≤ n
  length-take-le zero xs = omega arith
  length-take-le (suc n) [] = omega arith
  length-take-le (suc n) (x ∷ xs) = omega (arith, length-take-le n xs)

  pub length-append : (xs ys : List A) → length (xs ++ ys) ≡ length xs + length ys
  length-append [] ys = omega arith
  length-append (x ∷ xs) ys = omega (arith, length-append xs ys)

  pub all-mem : (p : A → Bool) (xs : List A) → all p xs ≡ true → (x : A) → Memᴰ x xs → p x ≡ true
  unfolding all
  all-mem p [] h x m = elim m [ ]
  all-mem p (y ∷ xs) h x (Memᴰ.head e) = rw e (ground arith)
  all-mem p (y ∷ xs) h x (Memᴰ.tail m) = all-mem p xs (ground arith) x m

  pub any-mem : (p : A → Bool) (xs : List A) (x : A) → Memᴰ x xs → p x ≡ true → any p xs ≡ true
  unfolding any
  any-mem p [] x m h = elim m [ ]
  any-mem p (y ∷ xs) x (Memᴰ.head e) h = let k : p y ≡ true = rw e at h in ground arith
  any-mem p (y ∷ xs) x (Memᴰ.tail m) h = ground (arith, any-mem p xs x m h)

  -- A true `any` has a member that passes.
  pub any-witness :
      (p : A → Bool) (xs : List A) → any p xs ≡ true → (x : A) × Memᴰ x xs × (p x ≡ true)
  unfolding any
  any-witness p [] h = cc
  any-witness p (y ∷ xs) h = elim (Bool-cases (p y)) [
    | inl e ↦ (y, Memᴰ.head refl, e)
    | inr e ↦ let (x, m, k) = any-witness p xs (ground arith) in (x, Memᴰ.tail m, k)
  ]

pub length-map {ℓ κ} :
    {A : Type ℓ} {B : Type κ} (f : A → B) (xs : List A) → length (map f xs) ≡ length xs
length-map f [] = refl
length-map f (x ∷ xs) = omega (arith, length-map f xs)

module _ {ℓ} {A : Type ℓ} where
  -- A false `all` has a member that fails.
  pub all_witness :
      (p : A → Bool) (xs : List A) → all p xs ≡ false → (x : A) × Memᴰ x xs × (p x ≡ false)
  unfolding all
  all_witness p [] h = cc
  all_witness p (y ∷ xs) h = elim (Bool-cases (p y)) [
    | inl e ↦ let (x, m, k) = all_witness p xs (ground arith) in (x, Memᴰ.tail m, k)
    | inr e ↦ (y, Memᴰ.head refl, e)
  ]

module _ {ℓ} {A : Type ℓ} where
  pub not-mem-nil : (x : A) → Memᴰ x [] → ⊥
  not-mem-nil x m = elim m [ ]

  pub mem-singleton : (x y : A) → Memᴰ x (y ∷ []) → x ≡ y
  mem-singleton x y (Memᴰ.head e) = e
  mem-singleton x y (Memᴰ.tail m) = elim m [ ]

  pub mem-append_cases : (x : A) (xs ys : List A) → Memᴰ x (xs ++ ys) → Memᴰ x xs ⊎ Memᴰ x ys
  mem-append_cases x [] ys m = inr m
  mem-append_cases x (y ∷ xs) ys (Memᴰ.head e) = inl (Memᴰ.head e)
  mem-append_cases x (y ∷ xs) ys (Memᴰ.tail m) = elim (mem-append_cases x xs ys m) [
    | inl n ↦ inl (Memᴰ.tail n)
    | inr n ↦ inr n
  ]

  pub mem-append_left : (x : A) (xs ys : List A) → Memᴰ x xs → Memᴰ x (xs ++ ys)
  mem-append_left x [] ys m = elim m [ ]
  mem-append_left x (y ∷ xs) ys (Memᴰ.head e) = Memᴰ.head e
  mem-append_left x (y ∷ xs) ys (Memᴰ.tail m) = Memᴰ.tail (mem-append_left x xs ys m)

  pub mem-append_right : (x : A) (xs ys : List A) → Memᴰ x ys → Memᴰ x (xs ++ ys)
  mem-append_right x [] ys m = m
  mem-append_right x (y ∷ xs) ys m = Memᴰ.tail (mem-append_right x xs ys m)

  pub mem-map_cases {κ} :
      {B : Type κ} (f : A → B) (y : B) (xs : List A)
      → Memᴰ y (map f xs)
      → (x : A) × Memᴰ x xs × (y ≡ f x)
  mem-map_cases f y [] m = elim m [ ]
  mem-map_cases f y (x ∷ xs) (Memᴰ.head e) = (x, Memᴰ.head refl, e)
  mem-map_cases f y (x ∷ xs) (Memᴰ.tail m) =
      let (z, n, e) = mem-map_cases f y xs m in (z, Memᴰ.tail n, e)

  pub mem-map_intro {κ} :
      {B : Type κ} (f : A → B) (x : A) (xs : List A) → Memᴰ x xs → Memᴰ (f x) (map f xs)
  mem-map_intro f x [] m = elim m [ ]
  mem-map_intro f x (y ∷ xs) (Memᴰ.head e) = Memᴰ.head (rw e refl)
  mem-map_intro f x (y ∷ xs) (Memᴰ.tail m) = Memᴰ.tail (mem-map_intro f x xs m)

  pub append-nil : (xs : List A) → xs ++ [] ≡ xs
  append-nil [] = refl
  append-nil (x ∷ xs) = ap (λ zs. x ∷ zs) (append-nil xs)

  pub append-snoc : (xs : List A) (y : A) (ys : List A) → (xs ++ y ∷ []) ++ ys ≡ xs ++ y ∷ ys
  append-snoc [] y ys = refl
  append-snoc (x ∷ xs) y ys = ap (λ zs. x ∷ zs) (append-snoc xs y ys)
