-- ===== src/Store/Queries.antt =====
-- The reading statements of internal/store/queries.go, and its small tables: logs, crons and event
-- subscriptions. An autoincremented seq is the place in the table.
pub mod Due
pub mod Crons
use quacker.Prelude.{
  ℕ, ◌+◌, ◌-◌, String, Bool, true, not, ◌&&◌, ◌||◌, List, [], ◌∷◌, ◌++◌, Option, none, some, map,
  ltb, leb, ◌==◌, str_eq, str_ltb, if◌then◌else◌, any, take, drop, length, reverse,
}
use quacker.Table.{select, first, count, update, delete, order_by}
use quacker.Store.Model.{
  Status, is, is_active, Bytes, Run, Step, Cron, LogEntry, Event, EventSub, Db, Result, ok, err,
  ◌>>=◌, not_found,
}
use quacker.Store.Complete.{is_run, in_run, is_named}

abbrev pub max_introspection_rows : ℕ
max_introspection_rows = 10_000

-- PausedQueues
unfoldable pub paused_queues : Db → List String
paused_queues db = order_by str_ltb db.queue_pauses

-- NextDue: the times of its two arms, and the least of them, 0 for NULL.
unfoldable pub scheduled_times : List Step → List ℕ
scheduled_times steps =
    map (λ s. s.run_at) (select (λ s. is Status.queued s.status) steps)
    ++ map (λ s. s.resume_at)
        (select (λ s. is Status.suspended s.status && ltb 0 s.resume_at) steps)

unfoldable pub minimum : ℕ → List ℕ → ℕ
minimum least [] = least
minimum least (t ∷ ts) = minimum (if ltb t least then t else least) ts

unfoldable pub next_due : Db → ℕ
next_due db = elim (scheduled_times db.steps) [ [] ↦ 0 | t ∷ ts ↦ minimum t ts ]

-- GetRun
unfoldable pub get_run : String → Db → Result Run
get_run id db = elim (first (is_run id) db.runs) [ none ↦ err not_found | some r ↦ ok r ]

-- loadStepsDB, GetSteps
unfoldable pub get_steps : String → Db → List Step
get_steps run_id db =
    take max_introspection_rows
      (order_by (λ a b. ltb a.ord b.ord) (select (in_run run_id) db.steps))

-- GetRunWithSteps, on the databases at its two reads
unfoldable pub get_run_with_steps : String → Db → Db → Result (Run × List Step)
get_run_with_steps run_id db later = get_run run_id db >>= λ r. ok (r, get_steps run_id later)

-- Filter. A condition that is unset holds of every run.
pub record Filter : Type 0 where
  pub status : Option Status
  pub queue : String
  pub workflow : String
  pub parent_id : String
  pub limit : ℕ
  pub offset : ℕ

unfoldable pub matches : Filter → Run → Bool
matches f r =
    elim f.status [ none ↦ true | some st ↦ is st r.status ]
    && ((str_eq f.queue "" || str_eq r.queue f.queue)
        && ((str_eq f.workflow "" || str_eq r.workflow f.workflow)
            && (str_eq f.parent_id "" || str_eq r.parent_id f.parent_id)))

abbrev pub page_limit : ℕ → ℕ
page_limit limit = if limit == 0 then 100 else if ltb 1000 limit then 1000 else limit

abbrev pub newest_first : Run → Run → Bool
newest_first a b =
    ltb b.created_at a.created_at || a.created_at == b.created_at && str_ltb b.id a.id

-- ListRuns
unfoldable pub list_runs : Filter → Db → List Run
list_runs f db =
    take (page_limit f.limit) (drop f.offset (order_by newest_first (select (matches f) db.runs)))

-- ListChildren
abbrev pub oldest_first : Run → Run → Bool
oldest_first a b =
    ltb a.created_at b.created_at || a.created_at == b.created_at && str_ltb a.id b.id

unfoldable pub list_children : String → Db → List Run
list_children parent_id db =
    take max_introspection_rows
      (order_by oldest_first (select (λ r. str_eq r.parent_id parent_id) db.runs))

-- QueueStats and Metrics, as functions of the status and of the queue.
pub record QueueStats : Type 0 where
  pub queued : ℕ
  pub running : ℕ
  pub blocked : ℕ
  pub suspended : ℕ

unfoldable pub runs_by_status : Db → Status → ℕ
runs_by_status db st = count (λ r. is st r.status) db.runs

abbrev pub queue_depth : Db → String → Status → ℕ
queue_depth db queue st = count (λ s. str_eq s.queue queue && is st s.status) db.steps

unfoldable pub queue_stats : Db → String → QueueStats
queue_stats db queue = record {
  queued = queue_depth db queue Status.queued;
  running = queue_depth db queue Status.running;
  blocked = queue_depth db queue Status.blocked;
  suspended = queue_depth db queue Status.suspended;
}

-- AppendLogs
unfoldable pub append_logs : List LogEntry → Db → Db
append_logs entries db = record db { logs = db.logs ++ entries }

-- GetLogs: the last lines, read backwards and turned around.
unfoldable pub get_logs : String → ℕ → Db → List LogEntry
get_logs run_id limit db = reverse (
    take (if limit == 0 then 500 else limit)
      (reverse (select (λ l. str_eq l.run_id run_id) db.logs)))

-- KnownQueues: SELECT DISTINCT
unfoldable pub distinct_names : List String → List String
distinct_names [] = []
distinct_names (q ∷ qs) =
    let rest = distinct_names qs in if any (λ p. str_eq p q) qs then rest else q ∷ rest

unfoldable pub known_queues : Db → List String
known_queues db = distinct_names (map (λ s. s.queue) db.steps)

-- UpsertCron: a row of the name keeps its created_at.
abbrev pub is_cron : String → Cron → Bool
is_cron name c = str_eq c.name name

unfoldable pub upsert_cron : Cron → Db → Db
upsert_cron c db = record db {
  crons =
      if any (is_cron c.name) db.crons
      then update (is_cron c.name) (λ r. record c { created_at = r.created_at }) db.crons
      else db.crons ++ c ∷ [];
}

-- DeleteCron and ListCrons
unfoldable pub delete_cron : String → Db → Db
delete_cron name db = record db { crons = delete (is_cron name) db.crons }

unfoldable pub list_crons : Db → List Cron
list_crons db = order_by (λ a b. str_ltb a.name b.name) db.crons

-- ListEvents
unfoldable pub list_events : ℕ → Db → List Event
list_events limit db = take (if limit == 0 then 100 else limit) (reverse db.events)

-- UpsertEventSub, DeleteEventSub and ListEventSubs
abbrev pub is_sub : String → String → EventSub → Bool
is_sub event task s = str_eq s.event event && str_eq s.task task

unfoldable pub upsert_event_sub : EventSub → Db → Db
upsert_event_sub sub db = record db {
  event_subs =
      if any (is_sub sub.event sub.task) db.event_subs
      then update (is_sub sub.event sub.task) (λ r. record r { created_at = sub.created_at })
          db.event_subs
      else db.event_subs ++ sub ∷ [];
}

unfoldable pub delete_event_sub : String → String → Db → Db
delete_event_sub event task db = record db { event_subs = delete (is_sub event task) db.event_subs }

unfoldable pub list_event_subs : Db → List EventSub
list_event_subs db =
    order_by (λ a b. str_ltb a.event b.event || str_eq a.event b.event && str_ltb a.task b.task)
      db.event_subs

-- GetStepOutputs: the map from names to outputs, as rows.
unfoldable pub get_step_outputs : String → List String → Db → List (String × Bytes)
get_step_outputs run_id names db =
    map (λ s. (s.name, s.output))
      (select
        (λ s.
          str_eq s.run_id run_id
          && (is Status.succeeded s.status && any (λ n. str_eq n s.name) names))
        db.steps)
