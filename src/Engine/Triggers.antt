-- ===== src/Engine/Triggers.antt =====
-- Crons (cron.go) and event bindings (events.go): registering and arming them, and what registering a
-- task arms. Go ranges over a map of crons in an order of its own; here it is the order of the list.
use quacker.Prelude.{
  ℕ, String, Bool, ◌&&◌, List, [], ◌∷◌, ◌++◌, map, Option, none, some, any, str_eq, leb,
  if◌then◌else◌,
}
use quacker.Table.{select, delete, delete_limit, update}
use quacker.Store.Model.{Bytes, Cron, EventSub, Db}
use quacker.Store.Queries.{
  upsert_cron, delete_cron, list_crons, upsert_event_sub, delete_event_sub, list_event_subs,
}
use quacker.Engine.Requests.{TaskDef}
use quacker.Engine.State.{CronEntry, TriggerSub, Engine, World}

abbrev pub is_cron_entry : String → CronEntry → Bool
is_cron_entry name c = str_eq c.name name

-- crons[c.name] = c
abbrev pub put_cron : CronEntry → List CronEntry → List CronEntry
put_cron c cs =
    if any (is_cron_entry c.name) cs
    then update (is_cron_entry c.name) (λ x. c) cs
    else cs ++ c ∷ []

-- takePendingCronsLocked: a stored next time that is still ahead is kept, a missed one is recomputed.
unfoldable pub rearm : ℕ → CronEntry → CronEntry
rearm now c = if leb c.next now then record c { next = c.sched now } else c

abbrev pub targets : String → CronEntry → Bool
targets task c = str_eq c.task task

unfoldable pub put_crons : List CronEntry → List CronEntry → List CronEntry
put_crons [] cs = cs
put_crons (c ∷ armed) cs = put_crons armed (put_cron c cs)

unfoldable pub take_pending_crons : ℕ → String → Engine → Engine × List CronEntry
unfolding rearm put_crons
take_pending_crons now task e =
    let armed = map (rearm now) (select (targets task) e.pending_crons) in
    (
      record e {
        crons = put_crons armed e.crons;
        pending_crons = delete (targets task) e.pending_crons;
      },
      armed,
    )

-- persistArmedCrons
abbrev pub cron_row : ℕ → CronEntry → Cron
cron_row created_at c = record {
  name = c.name;
  spec = c.spec;
  task = c.task;
  input = c.input;
  next_at = c.next;
  created_at = created_at;
}

unfoldable pub persist_armed_crons : List CronEntry → Db → Db
persist_armed_crons [] db = db
persist_armed_crons (c ∷ cs) db = persist_armed_crons cs (upsert_cron (cron_row 0 c) db)

-- takePendingSubsLocked
unfoldable pub take_pending_subs : String → Engine → Engine
take_pending_subs task e = record e {
  pending_subs = delete (λ s. str_eq s.task task) e.pending_subs;
  event_subs = e.event_subs ++ select (λ s. str_eq s.task task) e.pending_subs;
}

-- tasks[def.name] = def
abbrev pub put_task : TaskDef → List TaskDef → List TaskDef
put_task def ds =
    if any (λ d. str_eq d.name def.name) ds
    then update (λ d. str_eq d.name def.name) (λ d. def) ds
    else ds ++ def ∷ []

-- RegisterTask
unfoldable pub register_task : ℕ → TaskDef → World → World
unfolding take_pending_crons take_pending_subs persist_armed_crons
register_task now def w =
    let known = record w.engine { tasks = put_task def w.engine.tasks } in
    let (armed_crons, crons) = take_pending_crons now def.name known in
    record { engine = take_pending_subs def.name armed_crons; db = persist_armed_crons crons w.db }

pub data TriggerError : Type 0 where
  name_required unknown_task invalid_spec : TriggerError

pub data Tried : Type 0 where
  done : World → Tried
  failed : TriggerError → Tried

module _ (parse_cron : String → Option (ℕ → ℕ)) where
  -- RegisterCron
  unfoldable pub register_cron : ℕ → String → String → Option TaskDef → Bytes → World → Tried
  unfolding register_task
  register_cron now name spec def input w =
      if str_eq name "" then failed TriggerError.name_required else elim (parse_cron spec) [
        | none ↦ failed TriggerError.invalid_spec
        | some sched ↦ elim def [
          | none ↦ failed TriggerError.unknown_task
          | some d ↦
              let w' = register_task now d w in
              let entry : CronEntry = record {
                name = name;
                spec = spec;
                task = d.name;
                sched = sched;
                input = input;
                next = sched now;
              } in
              done (record {
                engine = record w'.engine {
                  pending_crons = delete (is_cron_entry name) w'.engine.pending_crons;
                  crons = put_cron entry w'.engine.crons;
                };
                db = upsert_cron (cron_row now entry) w'.db;
              })
        ]
      ]

  -- loadPersistedCrons
  unfoldable pub load_crons : List Cron → Engine → Engine
  load_crons [] e = e
  load_crons (c ∷ rows) e =
      let skipped = load_crons rows e in
      let load : (ℕ → ℕ) → Engine = λ sched. load_crons rows (record e {
        pending_crons =
            put_cron
              (record {
                name = c.name;
                spec = c.spec;
                task = c.task;
                sched = sched;
                input = c.input;
                next = c.next_at;
              })
              e.pending_crons;
      }) in
      if any (is_cron_entry c.name) e.crons
      then skipped
      else elim (parse_cron c.spec) [ none ↦ skipped | some sched ↦ load sched ]

  unfoldable pub load_persisted_crons : World → World
  unfolding load_crons
  load_persisted_crons w = record w { engine = load_crons (list_crons w.db) w.engine }

-- RemoveCron
unfoldable pub remove_cron : String → World → World
remove_cron name w = record {
  engine = record w.engine {
    crons = delete (is_cron_entry name) w.engine.crons;
    pending_crons = delete (is_cron_entry name) w.engine.pending_crons;
  };
  db = delete_cron name w.db;
}

-- RegisterEvent
abbrev pub is_binding : String → String → TriggerSub → Bool
is_binding event task s = str_eq s.event event && str_eq s.task task

unfoldable pub register_event : ℕ → String → Option TaskDef → World → Tried
unfolding register_task
register_event now event def w =
    if str_eq event "" then failed TriggerError.name_required else elim def [
      | none ↦ failed TriggerError.unknown_task
      | some d ↦
          let w' = register_task now d w in
          done (record {
            engine = record w'.engine {
              event_subs =
                  if any (is_binding event d.name) w'.engine.event_subs
                  then w'.engine.event_subs
                  else w'.engine.event_subs ++ record { event = event; task = d.name } ∷ [];
            };
            db = upsert_event_sub (record { event = event; task = d.name; created_at = now }) w'.db;
          })
    ]

-- RemoveEvent: the first binding goes, armed and pending.
unfoldable pub remove_event : String → String → World → World
remove_event event task w = record {
  engine = record w.engine {
    event_subs = delete_limit (is_binding event task) 1 w.engine.event_subs;
    pending_subs = delete_limit (is_binding event task) 1 w.engine.pending_subs;
  };
  db = delete_event_sub event task w.db;
}

-- loadPersistedSubs
unfoldable pub load_persisted_subs : World → World
load_persisted_subs w = record w {
  engine = record w.engine {
    pending_subs =
        w.engine.pending_subs
        ++ map {A = EventSub} (λ s. record { event = s.event; task = s.task })
            (list_event_subs w.db);
  };
}
