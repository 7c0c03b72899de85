-- ===== src/Engine/State.antt =====
-- The state of an engine (engine.go): its maps, guarded by one mutex, are lists without repeated keys; a
-- map of lists is one list, in which the entries of a key keep their order. An atomic counter is a number.
use quacker.Prelude.{
  ℕ, String, ℤ, pos, negsuc, zero, suc, Bool, true, List, [], ◌∷◌, ◌++◌, Option, some, any, str_eq,
  if◌then◌else◌,
}
use quacker.Table.{first, update, delete}
use quacker.Store.Model.{Status, Bytes, Db}
use quacker.Store.Complete.{Completion}
use quacker.Engine.Requests.{TaskDef}

pub record Queue : Type 0 where
  pub name : String
  pub concurrency : ℕ
  pub in_flight : ℕ
  pub rate_limit : ℕ
  pub rate_window : ℕ

-- A cron's schedule, from the cron library, is the function from a time to the next.
pub record CronEntry : Type 0 where
  pub name : String
  pub spec : String
  pub task : String
  pub sched : ℕ → ℕ
  pub input : Bytes
  pub next : ℕ  -- 0 is the zero time

pub record TriggerSub : Type 0 where
  pub event : String
  pub task : String

-- What publish sends to the bus.
pub record Notice : Type 0 where
  pub run_id : String
  pub step : String
  pub from_status : Status
  pub to_status : Option Status  -- none is the empty text
  pub error : String
  pub at : ℕ

-- RunError, ErrRunCancelled, ErrRunInterrupted
pub data WaitError : Type 0 where
  run_error : String → String → WaitError
  run_cancelled run_interrupted : WaitError

-- A finished waiter.
pub record Release : Type 0 where
  pub run_id : String
  pub status : Option Status
  pub output : Bytes
  pub error : Option WaitError

pub record Engine : Type 0 where
  pub queues : List Queue
  pub tasks : List TaskDef
  pub crons : List CronEntry
  pub pending_crons : List CronEntry
  pub event_subs : List TriggerSub
  pub pending_subs : List TriggerSub
  pub paused : List String  -- queues
  pub waiters : List String  -- runs
  pub released : List Release  -- what finished waiters hold, in order
  pub cancels : List String  -- steps whose executor registered a cancel function
  pub cancelled : List String  -- steps whose cancel function was called, in order
  pub halt_steps : List String
  pub pause_steps : List String
  pub published : List Notice
  pub pending : List Completion  -- successes that the completer has to record
  pub completer_stopped : Bool
  pub wake : Bool  -- a signal in the channel `wake`
  pub urgent : Bool
  pub closing : Bool

-- The engine and the store that it runs on.
pub record World : Type 0 where
  pub engine : Engine
  pub db : Db

abbrev pub is_in : String → List String → Bool
is_in x xs = any (str_eq x) xs

-- set[x] = struct{}{} and delete(set, x)
abbrev pub add : String → List String → List String
add x xs = if is_in x xs then xs else xs ++ x ∷ []

abbrev pub remove : String → List String → List String
remove x xs = delete (str_eq x) xs

abbrev pub default_queue_concurrency : ℕ
default_queue_concurrency = 10

abbrev pub is_queue : String → Queue → Bool
is_queue name q = str_eq q.name name

abbrev pub new_queue : String → ℕ → Queue
new_queue name concurrency = record {
  name = name;
  concurrency = concurrency;
  in_flight = 0;
  rate_limit = 0;
  rate_window = 0;
}

-- ensureQueue
unfoldable pub ensure_queue : String → Engine → Engine
ensure_queue name e = record e {
  queues =
      if any (is_queue name) e.queues
      then e.queues
      else e.queues ++ new_queue name default_queue_concurrency ∷ [];
}

-- normQueue
unfoldable pub norm_queue : String → String
norm_queue q = if str_eq q "" then "default" else q

-- max(n, 1) on a signed number
abbrev pub at_least_one : ℤ → ℕ
at_least_one (pos zero) = 1
at_least_one (pos (suc n)) = suc n
at_least_one (negsuc n) = 1

abbrev positive_or : ℕ → ℤ → ℕ
positive_or default (pos zero) = default
positive_or default (pos (suc n)) = suc n
positive_or default (negsuc n) = default

-- SetQueue
unfoldable pub set_queue : String → ℤ → Engine → Engine
set_queue name concurrency e =
    let n = positive_or default_queue_concurrency concurrency in
    record e {
      queues =
          if any (is_queue name) e.queues
          then update (is_queue name) (λ q. record q { concurrency = n }) e.queues
          else e.queues ++ new_queue name n ∷ [];
    }

-- SetRateLimit: a limit that is not positive turns the cap off, as 0 does.
unfoldable pub set_rate_limit : String → ℤ → ℤ → Engine → Engine
unfolding ensure_queue
set_rate_limit name n window e =
    let e' = ensure_queue name e in
    record e' {
      queues =
          update (is_queue name)
            (λ q. record q {
              rate_limit = positive_or 0 n;
              rate_window = positive_or 1_000_000_000 window;
            })
            e'.queues;
    }

-- taskDef
unfoldable pub task_def : String → Engine → Option TaskDef
task_def name e = first (λ d. str_eq d.name name) e.tasks

unfoldable pub publish : Notice → Engine → Engine
publish n e = record e { published = e.published ++ n ∷ [] }

abbrev pub transition : String → String → Status → Status → String → ℕ → Notice
transition run_id step from_status to_status error at = record {
  run_id = run_id;
  step = step;
  from_status = from_status;
  to_status = some to_status;
  error = error;
  at = at;
}

-- wakeScheduler and wakeSlot
unfoldable pub wake_scheduler : Engine → Engine
wake_scheduler e = record e { wake = true; urgent = true }

unfoldable pub wake_slot : Engine → Engine
wake_slot e = record e { wake = true }
