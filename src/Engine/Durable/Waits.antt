-- ===== src/Engine/Durable/Waits.antt =====
-- The durable helpers on a journal that does not fit the call, and WaitFor's race of an event and a timeout.
use quacker.Prelude.{
  ℕ, ◌≤◌, ◌≡◌, ◌≢◌, ◌↔◌, refl, ◌∙◌, ap, ap₂, String, Bool, true, false, not, ◌&&◌, ◌||◌, List, [],
  ◌∷◌, Option, Option-cases, none, some, ltb, leb, ◌==◌, get_elem?, str_eq, ◌⊎◌, inl, inr,
  Bool-cases, arith, &&-true,
}
use quacker.Table.{update, first, count}
use quacker.Table.Laws.{count_cases, count_unique, mem-first}
use quacker.Store.Model.{Bytes, JournalKind, JournalEntry, Db, Result, ok, err}
use quacker.Store.Journal.{is_entry, is_undone, timeout_wait, get_journal_entry}
use quacker.Engine.Durable.{
  advance, StepState, Helped, After, HelperError, Taken, take_entry, run_once, sleep, wait_for,
  wait_result, time_out, decoded, gives, kind_code, suspended_by, run_fn, stored,
}

-- The error of a call, the database after it, and whether it ran the function.
abbrev pub error_of : {T : Type 0} → Helped T → Option HelperError
error_of (Helped.failed e) = some e
error_of _ = none

abbrev pub outcome : {T : Type 0} → After T → Option HelperError × Db × Bool
outcome a = (error_of a.result, a.db, a.ran)

-- The entry was written by another call than this one.
abbrev pub is_misaligned : JournalKind → String → JournalEntry → Bool
is_misaligned JournalKind.sleep text e = not (kind_code e.kind == 0)
is_misaligned JournalKind.wait text e = not (kind_code e.kind == 1) || not (str_eq e.event text)
is_misaligned JournalKind.once text e = not (kind_code e.kind == 2) || not (str_eq e.key text)

-- The next entry of the journal was.
abbrev pub is_misaligned_at : JournalKind → String → StepState → Bool
is_misaligned_at kind text ss = elim (get_elem? ss.journal ss.cursor) [
  | none ↦ false
  | some e ↦ is_misaligned kind text e
]

module _ {T : Type 0} (zero_value : T) (encode : T → Option Bytes) (decode : Bytes → Option T) where
  -- A durable call of a kind, with its event or key.
  abbrev pub call :
      JournalKind → String → String ⊎ T → ℕ → ℕ → Db → StepState → Option HelperError × Db × Bool
  call JournalKind.sleep text fn d now db ss = outcome (sleep d now db ss)
  call JournalKind.wait text fn d now db ss =
      outcome (wait_for zero_value encode decode text d now db ss)
  call JournalKind.once text fn d now db ss =
      outcome (run_once zero_value encode decode text fn db ss)

  refuses :
      (kind : JournalKind) (text : String) (fn : String ⊎ T) (d now : ℕ) (db : Db) (ss : StepState)
      (e : JournalEntry)
      → get_elem? ss.journal ss.cursor ≡ some e
      → is_misaligned kind text e ≡ true
      → call kind text fn d now db ss ≡ (some HelperError.misaligned, db, false)
  unfolding sleep gives wait_for run_once
  refuses JournalKind.sleep text fn d now db ss e at bad =
      let k : (kind_code e.kind == 0) ≡ false = ground (arith, bad) in
      let slot : take_entry JournalKind.sleep ss ≡ Taken.wrong_kind = rw (at, take_entry, k) refl in
      rw (slot, sleep) refl
  refuses JournalKind.wait text fn d now db ss e at bad =
      elim (Bool-cases (kind_code e.kind == 1)) [
        | inl k ↦
            let slot : take_entry JournalKind.wait ss ≡ Taken.found e =
              rw (at, take_entry, k) refl in
            let other : str_eq e.event text ≡ false = ground (arith, bad, k) in
            rw (slot, wait_for, other) refl
        | inr k ↦
            let slot : take_entry JournalKind.wait ss ≡ Taken.wrong_kind =
              rw (at, take_entry, k) refl in
            rw (slot, wait_for) refl
      ]
  refuses JournalKind.once text fn d now db ss e at bad =
      elim (Bool-cases (kind_code e.kind == 2)) [
        | inl k ↦
            let slot : take_entry JournalKind.once ss ≡ Taken.found e =
              rw (at, take_entry, k) refl in
            let other : str_eq e.key text ≡ false = ground (arith, bad, k) in
            rw (slot, run_once, other) refl
        | inr k ↦
            let slot : take_entry JournalKind.once ss ≡ Taken.wrong_kind =
              rw (at, take_entry, k) refl in
            rw (slot, run_once) refl
      ]

none-other : none ≢ some HelperError.misaligned
none-other = ground arith

suspended_by-other :
    (T : Type 0) (m : Result Db) (s1 : StepState) (db : Db) (s2 : StepState)
    → error_of (suspended_by {T = T} m s1 db s2).result ≢ some HelperError.misaligned
unfolding suspended_by gives
suspended_by-other T (ok d) s1 db s2 = ground arith
suspended_by-other T (err e) s1 db s2 = ground arith

stored-other :
    {T : Type 0} (m : Result Db) (rest : Db → After T) (db : Db) (s : StepState)
    → ((d : Db) → error_of (rest d).result ≢ some HelperError.misaligned)
    → error_of (stored m rest db s).result ≢ some HelperError.misaligned
unfolding stored gives
stored-other (ok d) rest db s h = h d
stored-other (err e) rest db s h = ground arith

-- A call that fits its entry, or finds none, fails otherwise if it fails.
module _ {T : Type 0} (zero_value : T) (encode : T → Option Bytes) (decode : Bytes → Option T) where
  decoded-other :
      (b : Bytes) → error_of (decoded zero_value encode decode b) ≢ some HelperError.misaligned
  unfolding decoded
  decoded-other [] = ground arith
  decoded-other (b ∷ bs) = ground arith

  run_fn-other :
      (fn : String ⊎ T) (idx : ℕ) (e : JournalEntry) (db : Db) (s : StepState)
      → error_of (run_fn zero_value encode decode fn idx e db s).result
        ≢ some HelperError.misaligned
  unfolding run_fn
  run_fn-other (inl msg) idx e db s = ground arith
  run_fn-other (inr v) idx e db s = ground arith

  wait_result-other :
      (e : JournalEntry)
      → error_of (wait_result zero_value encode decode e) ≢ some HelperError.misaligned
  unfolding wait_result
  wait_result-other e = ground (arith, decoded-other e.payload)

  time_out-other :
      (idx : ℕ) (db : Db) (s : StepState)
      → error_of (time_out zero_value encode decode idx db s).result ≢ some HelperError.misaligned
  unfolding time_out gives
  time_out-other idx db s = elim (Bool-cases (timeout_wait s.step_id idx db).1) [
    | inl won ↦ rw (won, time_out) (ground arith)
    | inr lost ↦
        elim (Option-cases (get_journal_entry (timeout_wait s.step_id idx db).0 s.step_id idx)) [
          | inl gone ↦ rw (lost, time_out, gone) (ground arith)
          | inr (e, found) ↦ elim (Bool-cases (e.done && not e.timed_out)) [
            | inl k ↦ rw (lost, time_out, found, k) (wait_result-other e)
            | inr k ↦ rw (lost, time_out, found, k) (ground arith)
          ]
        ]
  ]

  accepts :
      (kind : JournalKind) (text : String) (fn : String ⊎ T) (d now : ℕ) (db : Db) (ss : StepState)
      → is_misaligned_at kind text ss ≡ false
      → (call zero_value encode decode kind text fn d now db ss).0 ≢ some HelperError.misaligned
  unfolding sleep gives wait_for run_once take_entry
  accepts JournalKind.sleep text fn d now db ss fits =
      elim (Option-cases (get_elem? ss.journal ss.cursor)) [
        | inl e ↦ elim (Bool-cases (d == 0)) [
          | inl z ↦
              rw (e, take_entry, sleep, z)
                (stored-other _ (λ db'. gives (Helped.value tt) db' _) db (advance ss)
                  (λ db'. none-other))
          | inr z ↦ rw (e, take_entry, sleep, z) (suspended_by-other (Unit {0}) _ _ db (advance ss))
        ]
        | inr (x, e) ↦
            let aligned : is_misaligned JournalKind.sleep text x ≡ false =
              rw (e, is_misaligned_at) at fits in
            let kind : (kind_code x.kind == 0) ≡ true = ground (arith, aligned) in
            let slot : take_entry JournalKind.sleep ss ≡ Taken.found x =
              rw (e, take_entry, kind) refl in
            elim (Bool-cases (ltb now x.wake_at)) [
              | inl early ↦
                  rw (slot, sleep, early) (suspended_by-other (Unit {0}) _ _ db (advance ss))
              | inr due ↦ rw (slot, sleep, due) (ground arith)
            ]
      ]
  accepts JournalKind.wait text fn d now db ss fits =
      elim (Option-cases (get_elem? ss.journal ss.cursor)) [
        | inl e ↦
            let slot : take_entry JournalKind.wait ss ≡ Taken.fresh = rw (e, take_entry) refl in
            rw (slot, wait_for) (suspended_by-other T _ _ db (advance ss))
        | inr (x, e) ↦
            let aligned : is_misaligned JournalKind.wait text x ≡ false =
              rw (e, is_misaligned_at) at fits in
            let kind : (kind_code x.kind == 1) ≡ true = ground (arith, aligned) in
            let same : str_eq x.event text ≡ true = ground (arith, aligned) in
            let slot : take_entry JournalKind.wait ss ≡ Taken.found x =
              rw (e, take_entry, kind) refl in
            elim (Bool-cases x.done) [
              | inl k ↦ rw (slot, wait_for, same, k) (wait_result-other x)
              | inr k ↦ elim (Bool-cases (ltb 0 x.deadline && leb x.deadline now)) [
                | inl l ↦ rw (slot, wait_for, same, k, l) (time_out-other ss.cursor db (advance ss))
                | inr l ↦ rw (slot, wait_for, same, k, l) (suspended_by-other T _ _ db (advance ss))
              ]
            ]
      ]
  accepts JournalKind.once text fn d now db ss fits =
      elim (Option-cases (get_elem? ss.journal ss.cursor)) [
        | inl e ↦
            let slot : take_entry JournalKind.once ss ≡ Taken.fresh = rw (e, take_entry) refl in
            rw (slot, run_once)
              (stored-other _ _ db (advance ss) (λ db'. run_fn-other fn ss.cursor _ db' _))
        | inr (x, e) ↦
            let aligned : is_misaligned JournalKind.once text x ≡ false =
              rw (e, is_misaligned_at) at fits in
            let kind : (kind_code x.kind == 2) ≡ true = ground (arith, aligned) in
            let same : str_eq x.key text ≡ true = ground (arith, aligned) in
            let slot : take_entry JournalKind.once ss ≡ Taken.found x =
              rw (e, take_entry, kind) refl in
            elim (Bool-cases x.done) [
              | inl k ↦ elim (Bool-cases (str_eq x.err "")) [
                | inl m ↦ rw (slot, run_once, same, k, m) (decoded-other x.result)
                | inr m ↦ rw (slot, run_once, same, k, m) (ground arith)
              ]
              | inr k ↦ rw (slot, run_once, same, k) (run_fn-other fn ss.cursor _ db _)
            ]
      ]

-- Changed task code fails loudly, and nothing else fails so: a durable call fails as misaligned exactly when
-- the journal's next entry is of another kind, or of another key for RunOnce or another event for WaitFor,
-- and exactly then it fails so with the database as it was and without having called RunOnce's function.
pub call_misaligned :
    {T : Type 0} (zero_value : T) (encode : T → Option Bytes) (decode : Bytes → Option T)
    (kind : JournalKind) (text : String) (fn : String ⊎ T) (d now : ℕ) (db : Db) (ss : StepState)
    → (((call zero_value encode decode kind text fn d now db ss).0 ≡ some HelperError.misaligned)
        ↔ (is_misaligned_at kind text ss ≡ true))
      × ((call zero_value encode decode kind text fn d now db ss
            ≡ (some HelperError.misaligned, db, false))
          ↔ (is_misaligned_at kind text ss ≡ true))
call_misaligned zero_value encode decode kind text fn d now db ss =
    ((only, λ bad. ap (λ r. r.0) (fails bad)), (λ same. only (ap (λ r. r.0) same), fails))
  where
    fails :
        is_misaligned_at kind text ss ≡ true
        → call zero_value encode decode kind text fn d now db ss
          ≡ (some HelperError.misaligned, db, false)
    fails bad = elim (Option-cases (get_elem? ss.journal ss.cursor)) [
      | inl e ↦ let bad' : false ≡ true = rw (e, is_misaligned_at) at bad in cc
      | inr (x, e) ↦
          refuses zero_value encode decode kind text fn d now db ss x e
            (rw (e, is_misaligned_at) at bad)
    ]

    only :
        (call zero_value encode decode kind text fn d now db ss).0 ≡ some HelperError.misaligned
        → is_misaligned_at kind text ss ≡ true
    only failed = elim (Bool-cases (is_misaligned_at kind text ss)) [
      | inl bad ↦ bad
      | inr fits ↦ absurd (accepts zero_value encode decode kind text fn d now db ss fits failed)
    ]

update_none :
    {A : Type 0} (p : A → Bool) (f : A → A) (xs : List A) → count p xs ≡ 0 → update p f xs ≡ xs
unfolding update count
update_none p f [] h = refl
update_none p f (x ∷ xs) h =
    let miss : p x ≡ false = ground (arith, h) in
    rw miss (ap (λ ys. x ∷ ys) (update_none p f xs (ground (arith, h))))

none_undone :
    (step_id : String) (idx : ℕ) (row : JournalEntry) (journal : List JournalEntry)
    → first (is_entry step_id idx) journal ≡ some row
    → count (is_entry step_id idx) journal ≤ 1
    → row.done ≡ true
    → count (is_undone step_id idx) journal ≡ 0
none_undone step_id idx row journal at unique done =
    elim (count_cases (is_undone step_id idx) journal) [
      | inl z ↦ z
      | inr (x, m, k) ↦
          let (entry, undone) = &&-true (is_entry step_id idx x) _ k in
          let (n, hit) = mem-first (is_entry step_id idx) row journal at in
          let same = count_unique (is_entry step_id idx) x row journal unique m n entry hit in
          let finished : x.done ≡ true = ap (λ y. y.done) same ∙ done in
          absurd (ground (arith, undone, finished))
    ]

timeout_lost :
    (step_id : String) (idx : ℕ) (row : JournalEntry) (db : Db)
    → first (is_entry step_id idx) db.journal ≡ some row
    → count (is_entry step_id idx) db.journal ≤ 1
    → row.done ≡ true
    → timeout_wait step_id idx db ≡ (db, false)
unfolding timeout_wait
timeout_lost step_id idx row db at unique done =
    let empty = none_undone step_id idx row db.journal at unique done in
    let kept =
      update_none (is_undone step_id idx) (λ x. record x { timed_out = true; done = true })
        db.journal empty in
    ap₂ (λ j b. (record db { journal = j }, b)) kept (rw empty refl)

timed_out_late :
    {T : Type 0} (zero_value : T) (encode : T → Option Bytes) (decode : Bytes → Option T) (idx : ℕ)
    (row : JournalEntry) (db : Db) (ss : StepState)
    → timeout_wait ss.step_id idx db ≡ (db, false)
    → first (is_entry ss.step_id idx) db.journal ≡ some row
    → row.done ≡ true
    → row.timed_out ≡ false
    → time_out zero_value encode decode idx db ss ≡ record {
      state = ss;
      db = db;
      result = decoded zero_value encode decode row.payload;
      ran = false;
    }
unfolding time_out gives wait_result get_journal_entry
timed_out_late zero_value encode decode idx row db ss lost at done delivered =
    let same : (timeout_wait ss.step_id idx db).0 ≡ db = ap (λ r. r.0) lost in
    let refused : (timeout_wait ss.step_id idx db).1 ≡ false = ap (λ r. r.1) lost in
    let row_there : get_journal_entry (timeout_wait ss.step_id idx db).0 ss.step_id idx ≡ some row =
      ap (λ d. get_journal_entry d ss.step_id idx) same ∙ at in
    let opened : time_out zero_value encode decode idx db ss
        ≡ gives (wait_result zero_value encode decode row) (timeout_wait ss.step_id idx db).0 ss =
      rw (refused, time_out, row_there, done, delivered) refl in
    opened
    ∙ ap (λ d. gives (wait_result zero_value encode decode row) d ss) same
    ∙ rw (delivered, wait_result) refl

-- An event that comes before the timeout is claimed wins: if WaitFor finds its entry undone in the journal
-- that the execution loaded and past its deadline, but the database's only such entry was delivered in the
-- meantime, then WaitFor returns the delivered payload and leaves the database as it is.
pub wait_for_delivered :
    {T : Type 0} (zero_value : T) (encode : T → Option Bytes) (decode : Bytes → Option T)
    (event : String) (timeout now : ℕ) (db : Db) (ss : StepState) (e row : JournalEntry)
    → take_entry JournalKind.wait ss ≡ Taken.found e
    → str_eq e.event event ≡ true
    → e.done ≡ false
    → (ltb 0 e.deadline && leb e.deadline now) ≡ true
    → first (is_entry ss.step_id ss.cursor) db.journal ≡ some row
    → count (is_entry ss.step_id ss.cursor) db.journal ≤ 1
    → row.done ≡ true
    → row.timed_out ≡ false
    → ((wait_for zero_value encode decode event timeout now db ss).result
        ≡ decoded zero_value encode decode row.payload)
      × ((wait_for zero_value encode decode event timeout now db ss).db ≡ db)
unfolding wait_for time_out gives wait_result timeout_wait get_journal_entry
wait_for_delivered zero_value encode decode event timeout now db ss e row slot named undone late at
      unique done delivered =
    let lost = timeout_lost ss.step_id ss.cursor row db at unique done in
    let over =
      timed_out_late zero_value encode decode ss.cursor row db (advance ss) lost at done
        delivered in
    let same : wait_for zero_value encode decode event timeout now db ss
        ≡ time_out zero_value encode decode ss.cursor db (advance ss) =
      rw (slot, wait_for, named, undone, late) refl in
    (ap (λ a. a.result) (same ∙ over), ap (λ a. a.db) (same ∙ over))
