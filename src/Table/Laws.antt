-- ===== src/Table/Laws.antt =====
-- Laws of the statements of Table: how an update changes counts, and what stands in a result.
use quacker.Prelude.{
  ◌++◌, ℕ, zero, suc, ◌+◌, ◌≤◌, ◌≡◌, refl, sym, ◌∙◌, Bool, true, false, ◌&&◌, List, [], ◌∷◌, Memᴰ,
  ◌⊎◌, inl, inr, Bool-cases, if◌then◌else◌, arith, length, any, some, none, take, mem-cons_cases,
  subst,
}
use quacker.Table.{select, first, count, update, delete, insert_by, order_by}

module _ {ℓ} {A : Type ℓ} where
  -- The rows that pass after an update passed before or were updated into passing.
  pub count-update-le :
      (p q : A → Bool) (f : A → A) (xs : List A)
      → count p (update q f xs) ≤ count p xs + count (λ x. q x && p (f x)) xs
  unfolding count update
  count-update-le p q f [] = omega arith
  count-update-le p q f (x ∷ xs) = ground (arith, count-update-le p q f xs)

  -- An update that leaves a test alone leaves its count alone.
  pub count-update_same :
      (p q : A → Bool) (f : A → A) (xs : List A)
      → ((x : A) → q x ≡ true → p (f x) ≡ p x)
      → count p (update q f xs) ≡ count p xs
  unfolding count update
  count-update_same p q f [] h = refl
  count-update_same p q f (x ∷ xs) h = elim (Bool-cases (q x)) [
    | inl e ↦ rw (e, h x e) (ground (arith, count-update_same p q f xs h))
    | inr e ↦ rw e (ground (arith, count-update_same p q f xs h))
  ]

  pub any-update_same :
      (p q : A → Bool) (f : A → A) (xs : List A)
      → ((x : A) → q x ≡ true → p (f x) ≡ p x)
      → any p (update q f xs) ≡ any p xs
  unfolding any update
  any-update_same p q f [] h = refl
  any-update_same p q f (x ∷ xs) h = elim (Bool-cases (q x)) [
    | inl e ↦ rw (e, h x e) (ground (arith, any-update_same p q f xs h))
    | inr e ↦ rw e (ground (arith, any-update_same p q f xs h))
  ]

  -- A test that implies another passes at most as often.
  pub count_mono :
      (p q : A → Bool) (xs : List A) → ((x : A) → p x ≡ true → q x ≡ true) → count p xs ≤ count q xs
  unfolding count
  count_mono p q [] h = omega arith
  count_mono p q (x ∷ xs) h = elim (Bool-cases (p x)) [
    | inl e ↦ rw (e, h x e) (omega (arith, count_mono p q xs h))
    | inr e ↦ rw e (ground (arith, count_mono p q xs h))
  ]

  pub count_zero : (p : A → Bool) (xs : List A) → ((x : A) → p x ≡ false) → count p xs ≡ 0
  unfolding count
  count_zero p [] h = refl
  count_zero p (x ∷ xs) h = rw (h x) (count_zero p xs h)

  -- A row that passes, or none does.
  pub count_cases :
      (p : A → Bool) (xs : List A) → (count p xs ≡ 0) ⊎ ((x : A) × Memᴰ x xs × (p x ≡ true))
  unfolding count
  count_cases p [] = inl refl
  count_cases p (x ∷ xs) = elim (Bool-cases (p x)) [
    | inl e ↦ inr (x, Memᴰ.head refl, e)
    | inr e ↦ elim (count_cases p xs) [
      | inl z ↦ inl (rw e z)
      | inr (y, m, k) ↦ inr (y, Memᴰ.tail m, k)
    ]
  ]

  pub length-update : (q : A → Bool) (f : A → A) (xs : List A) → length (update q f xs) ≡ length xs
  unfolding update
  length-update q f [] = refl
  length-update q f (x ∷ xs) = omega (arith, length-update q f xs)

  -- A row after an update is a row that the test missed, or an updated row.
  pub mem-update :
      (q : A → Bool) (f : A → A) (y : A) (xs : List A)
      → Memᴰ y (update q f xs)
      → (x : A) × Memᴰ x xs × (y ≡ (if q x then f x else x))
  unfolding update
  mem-update q f y [] m = elim m [ ]
  mem-update q f y (x ∷ xs) (Memᴰ.head e) = (x, Memᴰ.head refl, e)
  mem-update q f y (x ∷ xs) (Memᴰ.tail m) =
      let (z, n, e) = mem-update q f y xs m in (z, Memᴰ.tail n, e)

  -- What an update establishes for the rows it sets, and keeps for the others, holds of all.
  pub mem-update_all {κ} :
      (P : A → Type κ) (q : A → Bool) (f : A → A) (xs : List A)
      → ((x : A) → Memᴰ x xs → P x)
      → ((x : A) → Memᴰ x xs → q x ≡ true → P (f x))
      → (y : A) → Memᴰ y (update q f xs)
      → P y
  mem-update_all P q f xs old new y m =
      let (x, n, e) = mem-update q f y xs m in
      subst P (sym e)
        (elim (Bool-cases (q x)) [ inl hit ↦ rw hit (new x n hit) | inr miss ↦ rw miss (old x n) ])

  pub mem-update_intro :
      (q : A → Bool) (f : A → A) (x : A) (xs : List A)
      → Memᴰ x xs
      → Memᴰ (if q x then f x else x) (update q f xs)
  unfolding update
  mem-update_intro q f x [] m = elim m [ ]
  mem-update_intro q f x (y ∷ xs) (Memᴰ.head e) = Memᴰ.head (rw e refl)
  mem-update_intro q f x (y ∷ xs) (Memᴰ.tail m) = Memᴰ.tail (mem-update_intro q f x xs m)

  pub mem-select :
      (p : A → Bool) (x : A) (xs : List A) → Memᴰ x (select p xs) → Memᴰ x xs × (p x ≡ true)
  unfolding select
  mem-select p x [] m = elim m [ ]
  mem-select p x (y ∷ xs) m = elim (Bool-cases (p y)) [
    | inl e ↦ elim (mem-cons_cases {x = x} {y = y} {ys = select p xs} (rw e at m)) [
      | inl k ↦ (Memᴰ.head k, rw k e)
      | inr n ↦ let (n', k) = mem-select p x xs n in (Memᴰ.tail n', k)
    ]
    | inr e ↦ let (n, k) = mem-select p x xs (rw e at m) in (Memᴰ.tail n, k)
  ]

  pub mem-select_intro :
      (p : A → Bool) (x : A) (xs : List A) → Memᴰ x xs → p x ≡ true → Memᴰ x (select p xs)
  unfolding select
  mem-select_intro p x [] m h = elim m [ ]
  mem-select_intro p x (y ∷ xs) (Memᴰ.head e) h =
      let k : p y ≡ true = rw e at h in rw k (Memᴰ.head e)
  mem-select_intro p x (y ∷ xs) (Memᴰ.tail m) h = elim (Bool-cases (p y)) [
    | inl e ↦ rw e (Memᴰ.tail (mem-select_intro p x xs m h))
    | inr e ↦ rw e (mem-select_intro p x xs m h)
  ]

  pub mem-first :
      (p : A → Bool) (x : A) (xs : List A) → first p xs ≡ some x → Memᴰ x xs × (p x ≡ true)
  unfolding first
  mem-first p x [] h = cc
  mem-first p x (y ∷ xs) h = elim (Bool-cases (p y)) [
    | inl e ↦
        let k : some y ≡ some x = rw e at h in
        let same : y ≡ x = cc in (Memᴰ.head (sym same), rw (← same) e)
    | inr e ↦ let (m, k) = mem-first p x xs (rw e at h) in (Memᴰ.tail m, k)
  ]

  pub mem-delete :
      (p : A → Bool) (x : A) (xs : List A) → Memᴰ x (delete p xs) → Memᴰ x xs × (p x ≡ false)
  unfolding delete
  mem-delete p x [] m = elim m [ ]
  mem-delete p x (y ∷ xs) m = elim (Bool-cases (p y)) [
    | inl e ↦ let (n, k) = mem-delete p x xs (rw e at m) in (Memᴰ.tail n, k)
    | inr e ↦ elim (mem-cons_cases {x = x} {y = y} {ys = delete p xs} (rw e at m)) [
      | inl k ↦ (Memᴰ.head k, rw k e)
      | inr n ↦ let (n', k) = mem-delete p x xs n in (Memᴰ.tail n', k)
    ]
  ]

  pub mem-delete_intro :
      (p : A → Bool) (x : A) (xs : List A) → Memᴰ x xs → p x ≡ false → Memᴰ x (delete p xs)
  unfolding delete
  mem-delete_intro p x [] m h = elim m [ ]
  mem-delete_intro p x (y ∷ xs) (Memᴰ.head e) h =
      let k : p y ≡ false = rw e at h in rw k (Memᴰ.head e)
  mem-delete_intro p x (y ∷ xs) (Memᴰ.tail m) h = elim (Bool-cases (p y)) [
    | inl e ↦ rw e (mem-delete_intro p x xs m h)
    | inr e ↦ rw e (Memᴰ.tail (mem-delete_intro p x xs m h))
  ]

  pub mem-insert_by :
      (before : A → A → Bool) (x y : A) (ys : List A)
      → Memᴰ x (insert_by before y ys)
      → (x ≡ y) ⊎ Memᴰ x ys
  unfolding insert_by
  mem-insert_by before x y [] m = mem-cons_cases m
  mem-insert_by before x y (z ∷ ys) m = elim (Bool-cases (before z y)) [
    | inl e ↦ elim (mem-cons_cases {x = x} {y = z} {ys = insert_by before y ys} (rw e at m)) [
      | inl k ↦ inr (Memᴰ.head k)
      | inr n ↦ elim (mem-insert_by before x y ys n) [ inl k ↦ inl k | inr n' ↦ inr (Memᴰ.tail n') ]
    ]
    | inr e ↦ mem-cons_cases {x = x} {y = y} {ys = z ∷ ys} (rw e at m)
  ]

  pub mem-order_by :
      (before : A → A → Bool) (x : A) (xs : List A) → Memᴰ x (order_by before xs) → Memᴰ x xs
  unfolding order_by
  mem-order_by before x [] m = m
  mem-order_by before x (y ∷ xs) m = elim (mem-insert_by before x y (order_by before xs) m) [
    | inl k ↦ Memᴰ.head k
    | inr n ↦ Memᴰ.tail (mem-order_by before x xs n)
  ]

  pub count-append : (p : A → Bool) (xs ys : List A) → count p (xs ++ ys) ≡ count p xs + count p ys
  unfolding count
  count-append p [] ys = omega arith
  count-append p (x ∷ xs) ys = ground (arith, count-append p xs ys)

  pub count-length-le : (p : A → Bool) (xs : List A) → count p xs ≤ length xs
  unfolding count
  count-length-le p [] = omega arith
  count-length-le p (x ∷ xs) = ground (arith, count-length-le p xs)

  -- No row passes that is in the table.
  pub count_none :
      (p : A → Bool) (xs : List A) → ((x : A) → Memᴰ x xs → p x ≡ false) → count p xs ≡ 0
  unfolding count
  count_none p [] h = refl
  count_none p (x ∷ xs) h = rw (h x (Memᴰ.head refl)) (count_none p xs (λ y m. h y (Memᴰ.tail m)))

  pub mem-take : (n : ℕ) (x : A) (xs : List A) → Memᴰ x (take n xs) → Memᴰ x xs
  mem-take zero x xs m = elim m [ ]
  mem-take (suc n) x [] m = m
  mem-take (suc n) x (y ∷ xs) m = elim (mem-cons_cases m) [
    | inl k ↦ Memᴰ.head k
    | inr k ↦ Memᴰ.tail (mem-take n x xs k)
  ]

  pub count_member : (p : A → Bool) (x : A) (xs : List A) → Memᴰ x xs → p x ≡ true → 1 ≤ count p xs
  unfolding count
  count_member p x [] m h = elim m [ ]
  count_member p x (y ∷ xs) (Memᴰ.head e) h = let k : p y ≡ true = rw e at h in rw k (omega arith)
  count_member p x (y ∷ xs) (Memᴰ.tail m) h = ground (arith, count_member p x xs m h)

  -- Two rows that pass a test which passes at most once are one row.
  pub count_unique :
      (p : A → Bool) (x y : A) (xs : List A)
      → count p xs ≤ 1
      → Memᴰ x xs
      → Memᴰ y xs
      → p x ≡ true
      → p y ≡ true
      → x ≡ y
  unfolding count
  count_unique p x y [] le mx my hx hy = elim mx [ ]
  count_unique p x y (z ∷ xs) le (Memᴰ.head e) (Memᴰ.head f) hx hy = e ∙ sym f
  count_unique p x y (z ∷ xs) le (Memᴰ.head e) (Memᴰ.tail m) hx hy =
      let k : p z ≡ true = rw e at hx in
      let one : suc (count p xs) ≤ 1 = rw k at le in
      absurd (omega (arith, one, count_member p y xs m hy))
  count_unique p x y (z ∷ xs) le (Memᴰ.tail m) (Memᴰ.head f) hx hy =
      let k : p z ≡ true = rw f at hy in
      let one : suc (count p xs) ≤ 1 = rw k at le in
      absurd (omega (arith, one, count_member p x xs m hx))
  count_unique p x y (z ∷ xs) le (Memᴰ.tail m) (Memᴰ.tail n) hx hy =
      count_unique p x y xs
        (elim (Bool-cases (p z)) [
          | inl k ↦ let one : suc (count p xs) ≤ 1 = rw k at le in omega (arith, one)
          | inr k ↦ rw k at le
        ])
        m n hx hy

  pub first-none :
      (p : A → Bool) (x : A) (xs : List A) → first p xs ≡ none → Memᴰ x xs → p x ≡ false
  unfolding first
  first-none p x [] e m = elim m [ ]
  first-none p x (y ∷ xs) e m = elim (Bool-cases (p y)) [
    | inl k ↦ let bad : some y ≡ none = rw k at e in cc
    | inr k ↦ elim (mem-cons_cases m) [
      | inl same ↦ rw same k
      | inr n ↦ first-none p x xs (rw k at e) n
    ]
  ]

  pub count-delete-le : (p q : A → Bool) (xs : List A) → count p (delete q xs) ≤ count p xs
  unfolding count delete
  count-delete-le p q [] = omega arith
  count-delete-le p q (x ∷ xs) = ground (arith, count-delete-le p q xs)

  -- An update that makes no new row pass lets no more rows pass.
  pub count-update_mono :
      (p q : A → Bool) (f : A → A) (xs : List A)
      → ((x : A) → q x ≡ true → p (f x) ≡ true → p x ≡ true)
      → count p (update q f xs) ≤ count p xs
  unfolding count update
  count-update_mono p q f [] h = omega arith
  count-update_mono p q f (x ∷ xs) h = elim (Bool-cases (q x)) [
    | inl e ↦ elim (Bool-cases (p (f x))) [
      | inl k ↦ rw (e, k, h x e k) (omega (arith, count-update_mono p q f xs h))
      | inr k ↦ rw (e, k) (ground (arith, count-update_mono p q f xs h))
    ]
    | inr e ↦ rw e (ground (arith, count-update_mono p q f xs h))
  ]
