-- ===== src/Engine/Durable/Replay.antt =====
-- RunOnce, replayed from the journal that it wrote.
use quacker.Prelude.{
  ℕ, ◌+◌, ◌<◌, ◌≡◌, refl, sym, ◌∙◌, ap, subst, String, Bool, true, false, List, [], ◌∷◌, ◌++◌,
  Option, none, some, ltb, length, get_elem?, str_eq, eq_iff, ◌⊎◌, inl, inr, Bool-cases, Memᴰ,
  arith, any, any-witness, &&-intro, ==_iff,
}
use quacker.Table.{select, update, order_by, insert_by}
use quacker.Table.Laws.{mem-select}
use quacker.Store.Model.{Bytes, JournalKind, JournalEntry, Db, ok}
use quacker.Store.Journal.{load_journal, is_entry, append_journal, complete_journal_once}
use quacker.Engine.Durable.{
  StepState, Helped, Taken, take_entry, new_entry, run_once, run_fn, decoded, gives, stored,
}

module _ {A : Type 0} where
  get_elem?-end : (xs : List A) → get_elem? xs (length xs) ≡ none
  get_elem?-end [] = refl
  get_elem?-end (x ∷ xs) = get_elem?-end xs

  get_elem?-snoc : (xs : List A) (y : A) → get_elem? (xs ++ y ∷ []) (length xs) ≡ some y
  get_elem?-snoc [] y = refl
  get_elem?-snoc (x ∷ xs) y = get_elem?-snoc xs y

  select-snoc :
      (p : A → Bool) (xs : List A) (y : A)
      → p y ≡ true
      → select p (xs ++ y ∷ []) ≡ select p xs ++ y ∷ []
  unfolding select
  select-snoc p [] y h = rw h refl
  select-snoc p (x ∷ xs) y h = elim (Bool-cases (p x)) [
    | inl e ↦ rw e (ap (λ zs. x ∷ zs) (select-snoc p xs y h))
    | inr e ↦ rw e (select-snoc p xs y h)
  ]

  -- A row that no row comes after stays last.
  insert_by-snoc :
      (before : A → A → Bool) (x y : A) (xs : List A)
      → before y x ≡ false
      → insert_by before x (xs ++ y ∷ []) ≡ insert_by before x xs ++ y ∷ []
  unfolding insert_by
  insert_by-snoc before x y [] h = rw h refl
  insert_by-snoc before x y (z ∷ xs) h = elim (Bool-cases (before z x)) [
    | inl e ↦ rw e (ap (λ zs. z ∷ zs) (insert_by-snoc before x y xs h))
    | inr e ↦ rw e refl
  ]

  order_by-snoc :
      (before : A → A → Bool) (y : A) (xs : List A)
      → ((x : A) → Memᴰ x xs → before y x ≡ false)
      → order_by before (xs ++ y ∷ []) ≡ order_by before xs ++ y ∷ []
  unfolding order_by insert_by
  order_by-snoc before y [] h = refl
  order_by-snoc before y (x ∷ xs) h =
      ap (insert_by before x) (order_by-snoc before y xs (λ z m. h z (Memᴰ.tail m)))
      ∙ insert_by-snoc before x y (order_by before xs) (h x (Memᴰ.head refl))

  update-snoc :
      (p : A → Bool) (f : A → A) (xs : List A) (y : A)
      → ((x : A) → Memᴰ x xs → p x ≡ false)
      → p y ≡ true
      → update p f (xs ++ y ∷ []) ≡ xs ++ f y ∷ []
  unfolding update
  update-snoc p f [] y h k = rw k refl
  update-snoc p f (x ∷ xs) y h k =
      rw (h x (Memᴰ.head refl))
        (ap (λ zs. x ∷ zs) (update-snoc p f xs y (λ z m. h z (Memᴰ.tail m)) k))

-- The execution has replayed its whole journal, whose entries are numbered below the cursor.
pub record IsCaughtUp (ss : StepState) (db : Db) : Type 0 where
  pub loaded : ss.journal ≡ load_journal db ss.step_id
  pub at_end : ss.cursor ≡ length ss.journal
  pub numbered : (e : JournalEntry) → Memᴰ e db.journal → e.step_id ≡ ss.step_id → e.idx < ss.cursor

-- The execution starts again: the journal is loaded, and the calls before have been replayed.
abbrev pub replayed : StepState → Db → StepState
replayed ss db = record {
  step_id = ss.step_id;
  cursor = ss.cursor;
  journal = load_journal db ss.step_id;
}

-- The entry that a first RunOnce leaves.
abbrev memo : StepState → String → Bytes → JournalEntry
memo ss key res = record (new_entry JournalKind.once ss) { key = key; done = true; result = res }

-- No entry stands at the cursor.
slot-free :
    (ss : StepState) (db : Db)
    → IsCaughtUp ss db
    → (x : JournalEntry) → Memᴰ x db.journal
    → is_entry ss.step_id ss.cursor x ≡ false
slot-free ss db c x m = elim (Bool-cases (str_eq x.step_id ss.step_id)) [
  | inl e ↦ let lt = c.numbered x m ((eq_iff _ _).0 e) in rw e (ground (arith, lt))
  | inr e ↦ rw e refl
]

-- The entry that RunOnce writes before it calls its function.
abbrev begun_db : StepState → String → Db → Db
begun_db ss key db = record db {
  journal = db.journal ++ record (new_entry JournalKind.once ss) { key = key } ∷ [];
}

appended :
    (ss : StepState) (db : Db) (key : String)
    → IsCaughtUp ss db
    → append_journal (record (new_entry JournalKind.once ss) { key = key }) db
      ≡ ok (begun_db ss key db)
unfolding append_journal
appended ss db key c = elim (Bool-cases (any (is_entry ss.step_id ss.cursor) db.journal)) [
  | inr e ↦ rw e refl
  | inl e ↦
      let (x, m, hit) = any-witness (is_entry ss.step_id ss.cursor) db.journal e in
      let free = slot-free ss db c x m in absurd (ground (arith, hit, free))
]

written :
    (ss : StepState) (db : Db) (key : String) (res : Bytes)
    → IsCaughtUp ss db
    → (complete_journal_once ss.step_id ss.cursor res "" (begun_db ss key db)).journal
      ≡ db.journal ++ memo ss key res ∷ []
unfolding complete_journal_once
written ss db key res c =
    update-snoc (is_entry ss.step_id ss.cursor) _ db.journal _ (slot-free ss db c)
      (&&-intro _ _ ((eq_iff ss.step_id ss.step_id).1 refl) ((==_iff ss.cursor ss.cursor).1 refl))

load-snoc :
    (ss : StepState) (db db' : Db) (e : JournalEntry)
    → IsCaughtUp ss db
    → db'.journal ≡ db.journal ++ e ∷ []
    → e.step_id ≡ ss.step_id
    → e.idx ≡ ss.cursor
    → load_journal db' ss.step_id ≡ load_journal db ss.step_id ++ e ∷ []
unfolding load_journal
load-snoc ss db db' e c same home at =
    ap (λ l. order_by earlier (select mine l)) same
    ∙ ap (order_by earlier) (select-snoc mine db.journal e ((eq_iff _ _).1 home))
    ∙ order_by-snoc earlier e (select mine db.journal) (λ x m.
      let (n, k) = mem-select mine x db.journal m in
      let lt = c.numbered x n ((eq_iff _ _).0 k) in last x.idx e.idx (omega (arith, lt, at)))
  where
    mine : JournalEntry → Bool
    mine x = str_eq x.step_id ss.step_id

    earlier : JournalEntry → JournalEntry → Bool
    earlier a b = ltb a.idx b.idx

    last : (a b : ℕ) → a < b → ltb b a ≡ false
    last a b lt = ground arith

module _ {T : Type 0} (zero_value : T) (encode : T → Option Bytes) (decode : Bytes → Option T) where
  first_run :
      (key : String) (v : T) (res : Bytes) (db : Db) (ss : StepState)
      → encode v ≡ some res
      → IsCaughtUp ss db
      → (run_once zero_value encode decode key (inr v) db ss).db
        ≡ complete_journal_once ss.step_id ss.cursor res "" (begun_db ss key db)
  unfolding run_once run_fn take_entry stored
  first_run key v res db ss enc c =
      let at_end : get_elem? ss.journal ss.cursor ≡ none =
        subst (λ n. get_elem? ss.journal n ≡ none) (sym c.at_end) (get_elem?-end ss.journal) in
      let slot : take_entry JournalKind.once ss ≡ Taken.fresh = rw (at_end, take_entry) refl in
      rw (slot, run_once, appended ss db key c, enc, run_fn) refl

  second_run :
      (key : String) (v : T) (b : ℕ) (bs : Bytes) (fn : String ⊎ T) (db : Db) (ss : StepState)
      → decode (b ∷ bs) ≡ some v
      → get_elem? ss.journal ss.cursor ≡ some (memo ss key (b ∷ bs))
      → (run_once zero_value encode decode key fn db ss) ≡ record {
        state = record ss { cursor = ss.cursor + 1 };
        db = db;
        result = Helped.value v;
        ran = false;
      }
  unfolding run_once run_fn take_entry gives decoded
  second_run key v b bs fn db ss dec at =
      let same : str_eq key key ≡ true = (eq_iff key key).1 refl in
      let slot : take_entry JournalKind.once ss ≡ Taken.found (memo ss key (b ∷ bs)) =
        rw (at, take_entry) refl in
      rw (slot, run_once, same, dec) refl

-- RunOnce runs its function once: if an execution has replayed its whole journal and RunOnce's function then
-- returns a value that the codec encodes to a text that is not empty and decodes back, then the same
-- call in an execution that starts again from the journal in the database returns that value, whatever the
-- function would return, without calling it, and changes nothing in the database.
pub run_once-replayed :
    {T : Type 0} (zero_value : T) (encode : T → Option Bytes) (decode : Bytes → Option T)
    (key : String) (v : T) (b : ℕ) (bs : Bytes) (fn : String ⊎ T) (db : Db) (ss : StepState)
    → encode v ≡ some (b ∷ bs)
    → decode (b ∷ bs) ≡ some v
    → IsCaughtUp ss db
    → let db' = (run_once zero_value encode decode key (inr v) db ss).db in
      let again = run_once zero_value encode decode key fn db' (replayed ss db') in
      (again.result ≡ Helped.value v) × (again.ran ≡ false) × (again.db ≡ db')
run_once-replayed zero_value encode decode key v b bs fn db ss enc dec c =
    let db' = (run_once zero_value encode decode key (inr v) db ss).db in
    let first = first_run zero_value encode decode key v (b ∷ bs) db ss enc c in
    let journal = ap (λ d. d.journal) first ∙ written ss db key (b ∷ bs) c in
    let loaded = load-snoc ss db db' (memo ss key (b ∷ bs)) c journal refl refl in
    let whole = loaded ∙ ap (λ l. l ++ memo ss key (b ∷ bs) ∷ []) (sym c.loaded) in
    let found : get_elem? (load_journal db' ss.step_id) ss.cursor ≡ some (memo ss key (b ∷ bs)) =
      subst (λ n. get_elem? (load_journal db' ss.step_id) n ≡ some (memo ss key (b ∷ bs)))
        (sym c.at_end)
        (ap (λ l. get_elem? l (length ss.journal)) whole
          ∙ get_elem?-snoc ss.journal (memo ss key (b ∷ bs))) in
    let second =
      second_run zero_value encode decode key v b bs fn db' (replayed ss db') dec found in
    (ap (λ a. a.result) second, ap (λ a. a.ran) second, ap (λ a. a.db) second)
