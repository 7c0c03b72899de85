-- ===== src/Engine/Durable.antt =====
-- The durable helpers of internal/engine/durable.go inside one execution of a task: SleepDurable, RunOnce and
-- WaitFor. The codec is a parameter; so is what RunOnce's function returns, if it is called. A helper that
-- suspends ends the execution (by a panic in Go).
pub mod Replay
pub mod Waits
use quacker.Prelude.{
  ℕ, zero, suc, ◌+◌, String, Bool, true, false, not, ◌&&◌, List, [], ◌∷◌, ◌++◌, Option, none, some,
  ltb, leb, ◌==◌, length, get_elem?, str_eq, if◌then◌else◌, ◌⊎◌, inl, inr,
}
use quacker.Store.Model.{Bytes, JournalKind, JournalEntry, Db, Error, Result, ok, err}
use quacker.Store.Journal.{
  append_journal, complete_journal_once, suspend_step, suspend_with_journal, timeout_wait,
  get_journal_entry,
}

-- The parts of stepState that the helpers use.
pub record StepState : Type 0 where
  pub step_id : String
  pub cursor : ℕ
  pub journal : List JournalEntry

pub data HelperError : Type 0 where
  misaligned wait_timed_out codec_failed : HelperError
  store_failed : Error → HelperError
  task_failed : String → HelperError

pub data Helped (T : Type 0) : Type 0 where
  value : T → Helped T
  failed : HelperError → Helped T
  suspends : Helped T

-- What a call leaves; `ran` says whether RunOnce called its function.
pub record After (T : Type 0) : Type 0 where
  pub state : StepState
  pub db : Db
  pub result : Helped T
  pub ran : Bool

abbrev pub kind_code : JournalKind → ℕ
kind_code JournalKind.sleep = 0
kind_code JournalKind.wait = 1
kind_code JournalKind.once = 2

-- takeEntry: the slot, and the entry that a replay finds there.
pub data Taken : Type 0 where
  fresh wrong_kind : Taken
  found : JournalEntry → Taken

unfoldable pub take_entry : JournalKind → StepState → Taken
take_entry kind ss = elim (get_elem? ss.journal ss.cursor) [
  | none ↦ Taken.fresh
  | some e ↦ if kind_code e.kind == kind_code kind then Taken.found e else Taken.wrong_kind
]

abbrev pub advance : StepState → StepState
advance ss = record ss { cursor = ss.cursor + 1 }

-- The new entry at the slot.
abbrev pub new_entry : JournalKind → StepState → JournalEntry
new_entry kind ss = record {
  step_id = ss.step_id;
  idx = ss.cursor;
  kind = kind;
  key = "";
  event = "";
  wake_at = 0;
  deadline = 0;
  payload = [];
  result = [];
  err = "";
  done = false;
  timed_out = false;
}

abbrev pub with_entry : JournalEntry → StepState → StepState
with_entry e ss = record ss { journal = ss.journal ++ e ∷ [] }

-- journal[i] = e
unfoldable pub set_entry : ℕ → JournalEntry → List JournalEntry → List JournalEntry
set_entry i e [] = []
set_entry zero e (x ∷ xs) = e ∷ xs
set_entry (suc i) e (x ∷ xs) = x ∷ set_entry i e xs

module _ {T : Type 0} where
  unfoldable pub gives : Helped T → Db → StepState → After T
  gives r db ss = record { state = ss; db = db; result = r; ran = false }

  -- A suspension that the store refuses is an error of the call.
  unfoldable pub suspended_by : Result Db → StepState → Db → StepState → After T
  unfolding gives
  suspended_by (ok db') on_ok db ss = gives Helped.suspends db' on_ok
  suspended_by (err e) on_ok db ss = gives (Helped.failed (HelperError.store_failed e)) db ss

module _ {T : Type 0} where
  -- What follows an AppendJournal.
  unfoldable pub stored : Result Db → (Db → After T) → Db → StepState → After T
  unfolding gives
  stored (ok db') rest db ss = rest db'
  stored (err e) rest db ss = gives (Helped.failed (HelperError.store_failed e)) db ss

-- sleep; a duration that is not positive is 0.
unfoldable pub sleep : ℕ → ℕ → Db → StepState → After (Unit {0})
unfolding take_entry gives stored suspended_by
sleep d now db ss0 =
    let ss = advance ss0 in
    elim (take_entry JournalKind.sleep ss0) [
      | wrong_kind ↦ gives (Helped.failed HelperError.misaligned) db ss
      | fresh ↦
          let entry : JournalEntry = record (new_entry JournalKind.sleep ss0) {
            wake_at = now + d;
            done = d == 0;
          } in
          if d == 0
          then stored (append_journal entry db)
              (λ db'. gives (Helped.value tt) db' (with_entry entry ss)) db ss
          else suspended_by (suspend_with_journal entry "sleep" "" (now + d) db)
              (with_entry entry ss) db ss
      | found e ↦
          if ltb now e.wake_at
          then suspended_by (suspend_step ss.step_id "sleep" "" e.wake_at db) ss db ss
          else gives (Helped.value tt) db ss
    ]

module _ {T : Type 0} (zero_value : T) (encode : T → Option Bytes) (decode : Bytes → Option T) where
  -- An empty text is the zero value.
  unfoldable pub decoded : Bytes → Helped T
  decoded [] = Helped.value zero_value
  decoded (b ∷ bs) = elim (decode (b ∷ bs)) [
    | none ↦ Helped.failed HelperError.codec_failed
    | some v ↦ Helped.value v
  ]

  -- RunOnce's function is called, and its result recorded.
  unfoldable pub run_fn : String ⊎ T → ℕ → JournalEntry → Db → StepState → After T
  run_fn (inl msg) idx e db ss = record {
    state = ss;
    db = db;
    result = Helped.failed (HelperError.task_failed msg);
    ran = true;
  }
  run_fn (inr v) idx e db ss = elim (encode v) [
    | none ↦ record {
      state = ss;
      db = db;
      result = Helped.failed HelperError.codec_failed;
      ran = true;
    }
    | some res ↦ record {
      state = record ss {
        journal = set_entry idx (record e { done = true; result = res }) ss.journal;
      };
      db = complete_journal_once ss.step_id idx res "" db;
      result = Helped.value v;
      ran = true;
    }
  ]

  -- runOnce
  unfoldable pub run_once : String → String ⊎ T → Db → StepState → After T
  unfolding take_entry gives stored decoded run_fn
  run_once key fn db ss0 =
      let ss = advance ss0 in
      elim (take_entry JournalKind.once ss0) [
        | wrong_kind ↦ gives (Helped.failed HelperError.misaligned) db ss
        | fresh ↦
            let e : JournalEntry = record (new_entry JournalKind.once ss0) { key = key } in
            stored (append_journal e db) (λ db'. run_fn fn ss0.cursor e db' (with_entry e ss)) db ss
        | found e ↦
            if not (str_eq e.key key)
            then gives (Helped.failed HelperError.misaligned) db ss
            else if e.done
            then (if str_eq e.err ""
                then gives (decoded e.result) db ss
                else gives (Helped.failed (HelperError.task_failed e.err)) db ss)
            else run_fn fn ss0.cursor e db ss
      ]

  -- waitResult
  unfoldable pub wait_result : JournalEntry → Helped T
  unfolding decoded
  wait_result e =
      if e.timed_out then Helped.failed HelperError.wait_timed_out else decoded e.payload

  -- The deadline has passed: the timeout is claimed, and an event that came first is delivered.
  unfoldable pub time_out : ℕ → Db → StepState → After T
  unfolding wait_result gives
  time_out idx db ss =
      let (db', won) = timeout_wait ss.step_id idx db in
      if won
      then gives (Helped.failed HelperError.wait_timed_out) db' ss
      else elim (get_journal_entry db' ss.step_id idx) [
        | none ↦ gives (Helped.failed HelperError.wait_timed_out) db' ss
        | some e ↦
            if e.done && not e.timed_out
            then gives (wait_result e) db' ss
            else gives (Helped.failed HelperError.wait_timed_out) db' ss
      ]

  -- waitFor; a timeout that is not positive is 0, and waits for ever.
  unfoldable pub wait_for : String → ℕ → ℕ → Db → StepState → After T
  unfolding take_entry gives suspended_by wait_result time_out
  wait_for event timeout now db ss0 =
      let ss = advance ss0 in
      elim (take_entry JournalKind.wait ss0) [
        | wrong_kind ↦ gives (Helped.failed HelperError.misaligned) db ss
        | fresh ↦
            let deadline = if timeout == 0 then 0 else now + timeout in
            let entry : JournalEntry = record (new_entry JournalKind.wait ss0) {
              event = event;
              deadline = deadline;
            } in
            suspended_by (suspend_with_journal entry "wait" event deadline db) (with_entry entry ss)
              db ss
        | found e ↦
            if not (str_eq e.event event)
            then gives (Helped.failed HelperError.misaligned) db ss
            else if e.done
            then gives (wait_result e) db ss
            else if ltb 0 e.deadline && leb e.deadline now
            then time_out ss0.cursor db ss
            else suspended_by (suspend_step ss.step_id "wait" event e.deadline db) ss db ss
      ]
