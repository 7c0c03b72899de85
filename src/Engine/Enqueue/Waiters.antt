-- ===== src/Engine/Enqueue/Waiters.antt =====
-- The waiters that EnqueueBatch registers before its transaction, and drops when that fails.
use quacker.Prelude.{
  ◌≡◌, refl, sym, ◌∙◌, ap, String, true, false, List, [], ◌∷◌, ◌++◌, Memᴰ, str_eq, eq_iff, any,
  arith, inl, inr, Bool-cases, append-nil, append-snoc, not-mem-nil, mem-cons_cases,
}
use quacker.Table.{delete}
use quacker.Table.Laws.{mem-delete}
use quacker.Store.Enqueue.{Job}
use quacker.Engine.State.{is_in, remove}
use quacker.Engine.Enqueue.{add_waiters, drop_waiters}

remove-miss : (x : String) (ws : List String) → is_in x ws ≡ false → remove x ws ≡ ws
unfolding any delete
remove-miss x [] h = refl
remove-miss x (y ∷ ws) h = elim (Bool-cases (str_eq x y)) [
  | inl e ↦ let bad : true ≡ false = rw e at h in cc
  | inr e ↦ rw e (ap (λ xs. y ∷ xs) (remove-miss x ws (rw e at h)))
]

remove-append :
    (x : String) (ws ys : List String) → remove x (ws ++ ys) ≡ remove x ws ++ remove x ys
unfolding delete
remove-append x [] ys = refl
remove-append x (y ∷ ws) ys = elim (Bool-cases (str_eq x y)) [
  | inl e ↦ rw e (remove-append x ws ys)
  | inr e ↦ rw e (ap (λ xs. y ∷ xs) (remove-append x ws ys))
]

drop-append :
    (js : List Job) (ws ys : List String)
    → drop_waiters js (ws ++ ys) ≡ drop_waiters js ws ++ drop_waiters js ys
unfolding drop_waiters
drop-append [] ws ys = refl
drop-append (j ∷ js) ws ys =
    ap (drop_waiters js) (remove-append j.run.id ws ys)
    ∙ drop-append js (remove j.run.id ws) (remove j.run.id ys)

drop-miss :
    (js : List Job) (ws : List String)
    → ((j : Job) → Memᴰ j js → is_in j.run.id ws ≡ false)
    → drop_waiters js ws ≡ ws
unfolding drop_waiters
drop-miss [] ws h = refl
drop-miss (j ∷ js) ws h =
    ap (drop_waiters js) (remove-miss j.run.id ws (h j (Memᴰ.head refl)))
    ∙ drop-miss js ws (λ x m. h x (Memᴰ.tail m))

drop-kept :
    (js : List Job) (ws : List String) (x : String)
    → Memᴰ x (drop_waiters js ws)
    → Memᴰ x ws × ((j : Job) → Memᴰ j js → str_eq j.run.id x ≡ false)
unfolding drop_waiters
drop-kept [] ws x m = (m, λ j k. elim k [ ])
drop-kept (j ∷ js) ws x m =
    let (n, others) = drop-kept js (remove j.run.id ws) x m in
    let (k, this) = mem-delete (str_eq j.run.id) x ws n in
    (
      k,
      λ i i_mem. elim (mem-cons_cases i_mem) [
        | inl e ↦ ap (λ a. str_eq a.run.id x) e ∙ this
        | inr i_mem' ↦ others i i_mem'
      ],
    )

no_members : (xs : List String) → ((x : String) → Memᴰ x xs → ⊥) → xs ≡ []
no_members [] h = refl
no_members (x ∷ xs) h = absurd (h x (Memᴰ.head refl))

-- What is added is a job's, and comes after what was there.
record Added (js : List Job) (ws : List String) : Type 0 where
  extra : List String
  split : add_waiters js ws ≡ ws ++ extra
  owned : (x : String) → Memᴰ x extra → (j : Job) × Memᴰ j js × (j.run.id ≡ x)

added : (js : List Job) (ws : List String) → Added js ws
unfolding add_waiters
added [] ws = record {
  extra = [];
  split = sym (append-nil ws);
  owned = λ x m. absurd (not-mem-nil x m);
}
added (j ∷ js) ws = elim (Bool-cases (is_in j.run.id ws)) [
  | inl e ↦
      let r = added js ws in
      record {
        extra = r.extra;
        split = rw (add_waiters, e) r.split;
        owned = λ x m. let (i, k, same) = r.owned x m in (i, Memᴰ.tail k, same);
      }
  | inr e ↦
      let r = added js (ws ++ j.run.id ∷ []) in
      record {
        extra = j.run.id ∷ r.extra;
        split = rw (add_waiters, e) (r.split ∙ append-snoc ws j.run.id r.extra);
        owned = λ x m. elim (mem-cons_cases m) [
          | inl same ↦ (j, Memᴰ.head refl, sym same)
          | inr n ↦ let (i, k, same) = r.owned x n in (i, Memᴰ.tail k, same)
        ];
      }
]

-- Dropping what was registered restores the waiters, if none was registered for these runs before.
pub drop-add :
    (js : List Job) (ws : List String)
    → ((j : Job) → Memᴰ j js → is_in j.run.id ws ≡ false)
    → drop_waiters js (add_waiters js ws) ≡ ws
drop-add js ws fresh =
    let r = added js ws in
    let none_left = no_members (drop_waiters js r.extra) (λ x m.
      let (k, missed) = drop-kept js r.extra x m in
      let (j, j_mem, same) = r.owned x k in
      let hit : str_eq j.run.id x ≡ true = (eq_iff _ _).1 same in
      let miss = missed j j_mem in absurd (ground (arith, hit, miss))) in
    ap (drop_waiters js) r.split
    ∙ drop-append js ws r.extra
    ∙ ap (λ ys. drop_waiters js ws ++ ys) none_left
    ∙ append-nil (drop_waiters js ws)
    ∙ drop-miss js ws fresh
