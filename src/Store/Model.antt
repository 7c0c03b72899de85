-- ===== src/Store/Model.antt =====
-- The rows and the database of internal/store (rows.go, schema.go, journal.go). Timestamps are unix
-- nanoseconds with 0 for "unset"; a NULL output or unique key is the empty value, as in the Go rows.
use quacker.Prelude.{ℕ, String, ℤ, ◌≡◌, ◌==◌, Bool, true, false, List, [], arith, ◌↔◌}

pub data Status : Type 0 where
  queued running blocked suspended paused succeeded failed cancelled interrupted : Status

-- The statuses are strings that differ; a number for each tells them apart.
abbrev pub status_code : Status → ℕ
status_code Status.queued = 0
status_code Status.running = 1
status_code Status.blocked = 2
status_code Status.suspended = 3
status_code Status.paused = 4
status_code Status.succeeded = 5
status_code Status.failed = 6
status_code Status.cancelled = 7
status_code Status.interrupted = 8

-- status = ?
abbrev pub is : Status → Status → Bool
is want s = status_code s == status_code want

-- IsTerminal
abbrev pub is_terminal : Status → Bool
is_terminal Status.succeeded = true
is_terminal Status.failed = true
is_terminal Status.cancelled = true
is_terminal Status.interrupted = true
is_terminal _ = false

-- status IN ('QUEUED','RUNNING','BLOCKED','SUSPENDED')
abbrev pub is_active : Status → Bool
is_active Status.queued = true
is_active Status.running = true
is_active Status.blocked = true
is_active Status.suspended = true
is_active _ = false

pub data RunKind : Type 0 where
  task workflow : RunKind

abbrev pub Bytes : Type 0
Bytes = List ℕ

pub record Run : Type 0 where
  pub id : String
  pub workflow : String
  pub kind : RunKind
  pub status : Status
  pub queue : String
  pub priority : ℤ
  pub input : Bytes
  pub output : Bytes
  pub error : String
  pub attempts : ℕ
  pub max_attempts : ℕ
  pub run_at : ℕ
  pub created_at : ℕ
  pub started_at : ℕ
  pub completed_at : ℕ
  pub concurrency_key : String
  pub parent_id : String
  pub parent_step : String
  pub trace_parent : String
  pub unique_key : String
  pub paused_at : ℕ
  pub dead_lettered_at : ℕ
  pub sequence_key : String
  pub seq : ℕ
  pub ephemeral : Bool
  pub groups : Bytes

pub record StepKey : Type 0 where
  pub name : String
  pub value : String
  pub limit : ℕ

pub record Step : Type 0 where
  pub id : String
  pub run_id : String
  pub name : String
  pub task : String
  pub ord : ℕ
  pub status : Status
  pub depends_on : List String
  pub queue : String
  pub priority : ℤ
  pub input : Bytes
  pub output : Bytes
  pub error : String
  pub attempts : ℕ
  pub max_attempts : ℕ
  pub timeout : ℕ
  pub run_at : ℕ
  pub created_at : ℕ
  pub started_at : ℕ
  pub completed_at : ℕ
  pub concurrency_key : String
  pub key_limit : ℕ
  pub claimed_at : ℕ
  pub resume_at : ℕ
  pub wait_kind : String
  pub wait_event : String
  pub labels : List String
  pub worker_id : String
  pub lease_expires_at : ℕ
  pub sequence_key : String
  pub seq : ℕ
  pub keys : List StepKey

-- A row of the step_keys table.
pub record StepKeyRow : Type 0 where
  pub step_id : String
  pub key : StepKey

pub record Cron : Type 0 where
  pub name : String
  pub spec : String
  pub task : String
  pub input : Bytes
  pub next_at : ℕ
  pub created_at : ℕ

pub record LogEntry : Type 0 where
  pub run_id : String
  pub step : String
  pub at : ℕ
  pub level : String
  pub message : String

pub record Event : Type 0 where
  pub name : String
  pub payload : Bytes
  pub created_at : ℕ

-- A row of event_subscriptions: an event starts a task.
pub record EventSub : Type 0 where
  pub event : String
  pub task : String
  pub created_at : ℕ

-- JournalSleep, JournalWait, JournalOnce
pub data JournalKind : Type 0 where
  sleep wait once : JournalKind

pub record JournalEntry : Type 0 where
  pub step_id : String
  pub idx : ℕ
  pub kind : JournalKind
  pub key : String
  pub event : String
  pub wake_at : ℕ
  pub deadline : ℕ
  pub payload : Bytes
  pub result : Bytes
  pub err : String
  pub done : Bool
  pub timed_out : Bool

pub record Db : Type 0 where
  pub runs : List Run
  pub steps : List Step
  pub step_keys : List StepKeyRow
  pub journal : List JournalEntry
  pub crons : List Cron
  pub events : List Event
  pub event_subs : List EventSub
  pub logs : List LogEntry
  pub queue_pauses : List String
  pub next_seq : ℕ  -- the row `run` of the counters table

abbrev pub empty_db : Db
empty_db = record {
  runs = [];
  steps = [];
  step_keys = [];
  journal = [];
  crons = [];
  events = [];
  event_subs = [];
  logs = [];
  queue_pauses = [];
  next_seq = 0;
}

-- The errors by which an operation refuses.
pub data Error : Type 0 where
  not_found run_running run_terminal not_dead_letter duplicate_job unique_violation : Error
  step_not_running journal_misaligned wait_timeout purge_cutoff non_terminal_purge : Error
  batch_mismatch no_rows : Error

-- A transaction that fails is rolled back, so an error carries no database.
pub data Result (A : Type 0) : Type 0 where
  ok : A → Result A
  err : Error → Result A

infixl 5 ◌>>=◌
abbrev pub ◌>>=◌ : {A B : Type 0} → Result A → (A → Result B) → Result B
ok a >>= f = f a
err e >>= f = err e

pub is_iff : (want s : Status) → (is want s ≡ true) ↔ (s ≡ want)
is_iff want s = ground arith

-- What holds of a result if the operation did not refuse.
abbrev pub OnOk : {A : Type 0} → (A → Type 0) → Result A → Type 0
OnOk P (ok a) = P a
OnOk P (err e) = Unit {0}

pub OnOk-mono :
    {A : Type 0} (Q P : A → Type 0) (m : Result A) → ((a : A) → Q a → P a) → OnOk Q m → OnOk P m
OnOk-mono Q P (ok a) h q = h a q
OnOk-mono Q P (err e) h q = tt

-- A transaction in two parts keeps what both parts keep.
pub OnOk-bind :
    {A B : Type 0} (Q : A → Type 0) (P : B → Type 0) (m : Result A) (f : A → Result B)
    → OnOk Q m
    → ((a : A) → Q a → OnOk P (f a))
    → OnOk P (m >>= f)
OnOk-bind Q P (ok a) f q h = h a q
OnOk-bind Q P (err e) f q h = tt
