-- ===== src/Store/Purge/Rounds.antt =====
-- The rounds of PurgeRuns over the runs, and the runs that may still be purged.
use quacker.Prelude.{
  ℕ, zero, suc, ◌+◌, ◌≤◌, ◌<◌, ◌≡◌, refl, sym, ◌∙◌, ap, subst, String, Bool, true, false, ◌&&◌,
  ◌||◌, ◌⊎◌, inl, inr, Bool-cases, List, [], ◌∷◌, Memᴰ, any, any-mem, arith, ltb, take, length,
  length-map, mem-map_intro, str_eq, eq_iff, &&-intro, mem-cons_cases, ltb→lt,
}
use quacker.Table.{count, delete, select, order_by, insert_by}
use quacker.Table.Laws.{
  mem-take, mem-order_by, mem-select, mem-select_intro, mem-delete, count_cases, count_member,
}
use quacker.Store.Model.{Status, is, Run, Step, Db}
use quacker.Store.Complete.{delete_steps}
use quacker.Store.Purge.{
  PurgeOptions, PurgeResult, is_purgeable, purge_ids, is_listed, purge_run_batch, purge_run_batches,
}

module _ {A : Type 0} where
  any-delete_same :
      (q d : A → Bool) (xs : List A)
      → ((x : A) → d x ≡ true → q x ≡ false)
      → any q (delete d xs) ≡ any q xs
  unfolding any delete
  any-delete_same q d [] h = refl
  any-delete_same q d (x ∷ xs) h = elim (Bool-cases (d x)) [
    | inl e ↦ simp (e, h x e) (any-delete_same q d xs h)
    | inr e ↦ simp e (ap (λ b. q x || b) (any-delete_same q d xs h))
  ]

  -- A count after a deletion, by a test that agrees on the rows that stay.
  count-delete_split :
      (p p' d : A → Bool) (xs : List A)
      → ((x : A) → d x ≡ false → p' x ≡ p x)
      → count p' (delete d xs) + count (λ x. p x && d x) xs ≡ count p xs
  unfolding count delete
  count-delete_split p p' d [] h = refl
  count-delete_split p p' d (x ∷ xs) h = elim (Bool-cases (d x)) [
    | inl e ↦ elim (Bool-cases (p x)) [
      | inl k ↦ simp (e, k) (omega (arith, count-delete_split p p' d xs h))
      | inr k ↦ simp (e, k) (count-delete_split p p' d xs h)
    ]
    | inr e ↦ elim (Bool-cases (p x)) [
      | inl k ↦ simp (e, k, h x e) (omega (arith, count-delete_split p p' d xs h))
      | inr k ↦ simp (e, k, h x e) (count-delete_split p p' d xs h)
    ]
  ]

  take-all : (n : ℕ) (xs : List A) → length (take n xs) < n → take n xs ≡ xs
  take-all zero xs h = absurd (omega (arith, h))
  take-all (suc n) [] h = refl
  take-all (suc n) (x ∷ xs) h = ap (λ ys. x ∷ ys) (take-all n xs (omega (arith, h)))

  mem-insert_by_intro :
      (before : A → A → Bool) (x y : A) (xs : List A)
      → (x ≡ y) ⊎ Memᴰ x xs
      → Memᴰ x (insert_by before y xs)
  unfolding insert_by
  mem-insert_by_intro before x y [] (inl e) = Memᴰ.head e
  mem-insert_by_intro before x y [] (inr m) = elim m [ ]
  mem-insert_by_intro before x y (z ∷ zs) m = elim (Bool-cases (before z y)) [
    | inl e ↦ rw e (elim m [
      | inl same ↦ Memᴰ.tail (mem-insert_by_intro before x y zs (inl same))
      | inr n ↦ elim (mem-cons_cases n) [
        | inl k ↦ Memᴰ.head k
        | inr k ↦ Memᴰ.tail (mem-insert_by_intro before x y zs (inr k))
      ]
    ])
    | inr e ↦ rw e (elim m [ inl same ↦ Memᴰ.head same | inr n ↦ Memᴰ.tail n ])
  ]

  mem-order_by_intro :
      (before : A → A → Bool) (x : A) (xs : List A) → Memᴰ x xs → Memᴰ x (order_by before xs)
  unfolding order_by
  mem-order_by_intro before x [] m = elim m [ ]
  mem-order_by_intro before x (y ∷ xs) m =
      mem-insert_by_intro before x y (order_by before xs)
        (elim (mem-cons_cases m) [ inl e ↦ inl e | inr n ↦ inr (mem-order_by_intro before x xs n) ])

module _ (o : PurgeOptions) (statuses : List Status) (batch : ℕ) where
  -- How many runs may be purged.
  abbrev pub left : Db → ℕ
  left db = count (is_purgeable o statuses db.steps) db.runs

  -- Purging the listed runs does not change which of the others may be purged.
  others_same :
      (ids : List String) (steps : List Step) (r : Run)
      → is_listed ids r.id ≡ false
      → is_purgeable o statuses (delete (λ s. is_listed ids s.run_id) steps) r
        ≡ is_purgeable o statuses steps r
  unfolding is_purgeable
  others_same ids steps r free =
      rw
        (any-delete_same (λ s. str_eq s.run_id r.id && is Status.running s.status)
          (λ s. is_listed ids s.run_id) steps
          (λ s hit. elim (Bool-cases (str_eq s.run_id r.id)) [
            | inl e ↦
                let found : is_listed ids r.id ≡ true =
                  subst (λ i. is_listed ids i ≡ true) ((eq_iff s.run_id r.id).0 e) hit in
                absurd (ground arith)
            | inr e ↦ rw e refl
          ]))
        refl

  left-batch :
      (db : Db)
      → left (purge_run_batch o statuses batch db).db
          + count
              (λ r.
                is_purgeable o statuses db.steps r
                && is_listed (purge_ids o statuses batch db) r.id)
              db.runs
        ≡ left db
  unfolding purge_run_batch delete_steps
  left-batch db =
      count-delete_split (is_purgeable o statuses db.steps) _
        (λ r. is_listed (purge_ids o statuses batch db) r.id) db.runs
        (λ r free. others_same (purge_ids o statuses batch db) db.steps r free)

  -- The ids of a batch are those of runs that may be purged.
  abbrev oldest : Db → List Run
  oldest db =
      order_by (λ a b. ltb a.completed_at b.completed_at)
        (select (is_purgeable o statuses db.steps) db.runs)

  listed_intro :
      (db : Db) (r : Run)
      → Memᴰ r (take batch (oldest db))
      → is_listed (purge_ids o statuses batch db) r.id ≡ true
  unfolding purge_ids
  listed_intro db r m =
      any-mem (λ i. str_eq i r.id) _ r.id (mem-map_intro (λ x. x.id) r (take batch (oldest db)) m)
        ((eq_iff r.id r.id).1 refl)

  selected-length :
      (db : Db) → (purge_run_batch o statuses batch db).selected ≡ length (take batch (oldest db))
  unfolding purge_run_batch purge_ids
  selected-length db = length-map (λ x. x.id) (take batch (oldest db))

  abbrev removed : Db → ℕ
  removed db =
      count
        (λ r. is_purgeable o statuses db.steps r && is_listed (purge_ids o statuses batch db) r.id)
        db.runs

  -- A batch that lists a run removes one that may be purged.
  some_removed :
      (db : Db) (chosen : List Run)
      → take batch (oldest db) ≡ chosen
      → 1 ≤ length chosen
      → 1 ≤ removed db
  some_removed db [] e h = absurd (omega (arith, h))
  some_removed db (x ∷ xs) e h =
      let m : Memᴰ x (take batch (oldest db)) = subst (λ l. Memᴰ x l) (sym e) (Memᴰ.head refl) in
      let (n, may) =
        mem-select (is_purgeable o statuses db.steps) x db.runs
          (mem-order_by _ x _ (mem-take batch x (oldest db) m)) in
      count_member _ x db.runs n (&&-intro _ _ may (listed_intro db x m))

  -- A batch that is not full lists every run that may be purged.
  none_left :
      (db : Db)
      → length (take batch (oldest db)) < batch
      → left (purge_run_batch o statuses batch db).db ≡ 0
  unfolding purge_run_batch delete_steps
  none_left db short =
      let ids = purge_ids o statuses batch db in
      elim (count_cases (is_purgeable o statuses (delete (λ s. is_listed ids s.run_id) db.steps))
        (delete (λ r. is_listed ids r.id) db.runs)) [
          | inl z ↦ z
          | inr (r, m, h) ↦
              let (n, free) = mem-delete (λ x. is_listed ids x.id) r db.runs m in
              let may : is_purgeable o statuses db.steps r ≡ true =
                sym (others_same ids db.steps r free) ∙ h in
              let chosen : Memᴰ r (take batch (oldest db)) = rw (take-all batch (oldest db) short) (
                mem-order_by_intro _ r _
                  (mem-select_intro (is_purgeable o statuses db.steps) r db.runs n may)) in
              let listed = listed_intro db r chosen in absurd (ground arith)
        ]

  -- With more fuel than runs to purge, the loop ends at a round that leaves none.
  pub left-batches :
      (fuel : ℕ) (db : Db) (res : PurgeResult)
      → 0 < batch
      → left db < fuel
      → left (purge_run_batches fuel o statuses batch db res).0 ≡ 0
  unfolding purge_run_batches
  left-batches zero db res pos enough = absurd (omega (arith, enough))
  left-batches (suc fuel) db res pos enough =
      let sel = selected-length db in
      elim (Bool-cases (ltb (purge_run_batch o statuses batch db).selected batch)) [
        | inl e ↦ rw e (none_left db (let k = ltb→lt _ _ e in omega (arith, sel, k)))
        | inr e ↦ rw e (
            left-batches fuel (purge_run_batch o statuses batch db).db _ pos (
              let some =
                some_removed db _ refl (let k = full _ _ e in omega (arith, sel, k, pos)) in
              omega (arith, left-batch db, some, enough)))
      ]
    where
      full : (a b : ℕ) → ltb a b ≡ false → b ≤ a
      full a b h = ground arith
