-- ===== src/Store/Queries/Crons.antt =====
-- UpsertCron and DeleteCron, against looking a cron up by its name.
use quacker.Prelude.{
  ◌≡◌, refl, sym, ◌∙◌, String, true, false, inl, inr, Bool-cases, List, [], ◌∷◌, ◌++◌, Option, none,
  some, any, str_eq, eq_iff, arith, subst, if◌then◌else◌,
}
use quacker.Table.{first, update}
use quacker.Store.Model.{Cron, Db}
use quacker.Store.Queries.{is_cron, upsert_cron}

abbrev pub cron_of : String → List Cron → Option Cron
cron_of name crons = first (is_cron name) crons

-- The row that an upsert leaves, given the row of the name before it.
abbrev pub upserted : Cron → Option Cron → Cron
upserted c none = c
upserted c (some r) = record c { created_at = r.created_at }

cron_of-none :
    (name : String) (xs : List Cron) → any (is_cron name) xs ≡ false → cron_of name xs ≡ none
unfolding first any
cron_of-none name [] h = refl
cron_of-none name (x ∷ xs) h = elim (Bool-cases (is_cron name x)) [
  | inl e ↦ absurd (ground arith)
  | inr e ↦ simp e (cron_of-none name xs (ground arith))
]

cron_of-concat :
    (name : String) (c : Cron) (xs : List Cron)
    → cron_of name (xs ++ c ∷ [])
      ≡ elim (cron_of name xs) [ none ↦ if is_cron name c then some c else none | some r ↦ some r ]
unfolding first
cron_of-concat name c [] = refl
cron_of-concat name c (x ∷ xs) = elim (Bool-cases (is_cron name x)) [
  | inl e ↦ simp e refl
  | inr e ↦ simp e (cron_of-concat name c xs)
]

differ : (a b x : String) → str_eq x a ≡ true → str_eq x b ≡ false → str_eq a b ≡ false
differ a b x h k = subst (λ n. str_eq n b ≡ false) ((eq_iff x a).0 h) k

differ_left : (a b x : String) → str_eq x a ≡ false → str_eq x b ≡ true → str_eq a b ≡ false
differ_left a b x h k = elim (Bool-cases (str_eq a b)) [
  | inl e ↦
      let hit : str_eq x a ≡ true = (eq_iff x a).1 ((eq_iff x b).0 k ∙ sym ((eq_iff a b).0 e)) in
      absurd (ground (arith, hit, h))
  | inr e ↦ e
]

cron_of-update :
    (name : String) (c : Cron) (xs : List Cron)
    → cron_of name (update (is_cron c.name) (λ r. record c { created_at = r.created_at }) xs) ≡ (
        if str_eq c.name name
        then elim (cron_of name xs) [ none ↦ none | some r ↦ some (upserted c (some r)) ]
        else cron_of name xs)
unfolding first update
cron_of-update name c [] = elim (Bool-cases (str_eq c.name name)) [
  | inl e ↦ rw e refl
  | inr e ↦ rw e refl
]
cron_of-update name c (x ∷ xs) =
    let rest = cron_of-update name c xs in
    elim (Bool-cases (is_cron c.name x)) [
      | inl e ↦ elim (Bool-cases (is_cron name x)) [
        | inl k ↦
            let same : str_eq c.name name ≡ true =
              (eq_iff _ _).1 (sym ((eq_iff _ _).0 e) ∙ (eq_iff _ _).0 k) in
            let new : str_eq c.name name ≡ true = same in simp (e, k, same) refl
        | inr k ↦
            let other : str_eq c.name name ≡ false = differ c.name name x.name e k in
            let miss : (if str_eq c.name name
                  then elim (cron_of name xs) [ none ↦ none | some r ↦ some (upserted c (some r)) ]
                  else cron_of name xs)
                ≡ cron_of name xs =
              rw other refl in
            simp (e, k, other) (rest ∙ miss)
      ]
      | inr e ↦ elim (Bool-cases (is_cron name x)) [
        | inl k ↦
            let other : str_eq c.name name ≡ false = differ_left c.name name x.name e k in
            simp (e, k, other) refl
        | inr k ↦ simp (e, k) rest
      ]
    ]

cron_of-some :
    (name : String) (xs : List Cron)
    → any (is_cron name) xs ≡ true
    → (r : Cron) × (cron_of name xs ≡ some r)
unfolding first any
cron_of-some name [] h = cc
cron_of-some name (x ∷ xs) h = elim (Bool-cases (is_cron name x)) [
  | inl e ↦ (x, simp e refl)
  | inr e ↦ let (r, k) = cron_of-some name xs (ground arith) in (r, simp e k)
]

-- After UpsertCron, the row of the cron's name has the new schedule, task, payload and next fire time and
-- keeps the creation time that it had, if it had one; the row of every other name is as before.
pub upsert_cron-cron_of :
    (c : Cron) (db : Db) (name : String)
    → cron_of name (upsert_cron c db).crons ≡ (
        if str_eq c.name name
        then some (upserted c (cron_of c.name db.crons))
        else cron_of name db.crons)
unfolding upsert_cron
upsert_cron-cron_of c db name =
    let set = cron_of-update name c db.crons in
    let added = cron_of-concat name c db.crons in
    elim (Bool-cases (any (is_cron c.name) db.crons)) [
      | inl e ↦ elim (Bool-cases (str_eq c.name name)) [
        | inl same ↦
            let (r, row) = cron_of-some c.name db.crons e in
            let row' : cron_of name db.crons ≡ some r =
              subst (λ n. cron_of n db.crons ≡ some r) ((eq_iff c.name name).0 same) row in
            simp (e, same, row) (rw (same, row') at set)
        | inr other ↦ simp (e, other) (rw other at set)
      ]
      | inr e ↦ elim (Bool-cases (str_eq c.name name)) [
        | inl same ↦
            let row = cron_of-none c.name db.crons e in
            let row' : cron_of name db.crons ≡ none =
              subst (λ n. cron_of n db.crons ≡ none) ((eq_iff c.name name).0 same) row in
            simp (e, same, row) (rw (row', same) at added)
        | inr other ↦ simp (e, other) (added ∙ kept (cron_of name db.crons) other)
      ]
    ]
  where
    kept :
        (o : Option Cron)
        → str_eq c.name name ≡ false
        → elim o [ none ↦ if is_cron name c then some c else none | some r ↦ some r ] ≡ o
    kept none other = rw other refl
    kept (some r) other = refl
