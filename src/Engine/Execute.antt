-- ===== src/Engine/Execute.antt =====
-- execute of engine.go: one claimed step, up to its body and after it. Other transactions come in between,
-- so these are three functions. The plugins' hooks, the span and the middleware are part of the body.
pub mod Settled
pub mod Race
pub mod Races
use quacker.Prelude.{
  ℕ, ◌+◌, ◌-◌, String, Bool, true, false, not, ◌&&◌, List, [], ◌∷◌, ◌++◌, Option, none, some, ltb,
  str_eq, if◌then◌else◌,
}
use quacker.Table.{update}
use quacker.Store.Model.{Status, Bytes, Step, Db, Result, ok, err}
use quacker.Store.Lifecycle.{park_step, retry_step, requeue_paused_step, step_cancelled}
use quacker.Store.Complete.{final_fail_step, CompleteResult}
use quacker.Engine.Requests.{TaskDef}
use quacker.Engine.Retry.{delay}
use quacker.Engine.State.{
  Engine, World, Queue, is_queue, is_in, add, remove, task_def, publish, transition, wake_scheduler,
  wake_slot,
}
use quacker.Engine.Control.{is_run_terminal, finish_run, cancel_step_contexts}
use quacker.Engine.Completer.{submit_completion}

-- How a body ends: it returns, it fails (because its context was cancelled or not), a durable helper
-- suspends it, or a BeforeStep hook vetoed it.
pub data BodyEnd : Type 0 where
  returned : Bytes → BodyEnd
  failed : String → Bool → BodyEnd
  suspended : BodyEnd
  vetoed : String → BodyEnd

-- The step's task, or its name where it has none.
abbrev pub task_name : Step → String
task_name st = if str_eq st.task "" then st.name else st.task

-- The deferred calls: the cancel function is dropped, the slot freed, and the scheduler woken.
unfoldable pub leave : Step → Engine → Engine
unfolding wake_slot
leave st e = wake_slot (record e {
  cancels = remove st.id e.cancels;
  queues = update (is_queue st.queue) (λ q. record q { in_flight = q.in_flight - 1 }) e.queues;
})

-- consumePause
unfoldable pub consume_pause : String → Engine → Engine × Bool
consume_pause id e = (record e { pause_steps = remove id e.pause_steps }, is_in id e.pause_steps)

abbrev pub moved : Step → Status → String → ℕ → Engine → Engine
moved st to_status error now e =
    publish (transition st.run_id st.name Status.running to_status error now) e

-- The row converges to CANCELLED.
unfoldable pub cancel_executed : Step → String → ℕ → World → World
unfolding publish
cancel_executed st error now w = record {
  db = step_cancelled st.id now w.db;
  engine = moved st Status.cancelled error now w.engine;
}

unfoldable pub requeue_executed : Step → ℕ → World → World
unfolding publish
requeue_executed st now w = record {
  db = requeue_paused_step st.id w.db;
  engine = moved st Status.queued "" now w.engine;
}

abbrev pub park_time : ℕ
park_time = 5_000_000_000

pub data Begun : Type 0 where
  over : World → Begun  -- the executor has returned
  run : TaskDef → World → Begun  -- the body comes next

-- execute, up to the end of its locked section: the cancel function is registered, and a tombstone taken.
pub data Entered : Type 0 where
  unknown : World → Entered  -- the task is not registered here, and the step is parked
  registered : TaskDef → Bool → World → Entered

unfoldable pub enter : Step → ℕ → World → Entered
unfolding task_def leave wake_slot
enter st now w = elim (task_def (task_name st) w.engine) [
  | none ↦ Entered.unknown (record {
    db = park_step st.id "task not registered in this process" (now + park_time) w.db;
    engine = leave st (wake_slot w.engine);
  })
  | some def ↦ Entered.registered def (is_in st.id w.engine.halt_steps) (record w {
    engine = record w.engine {
      cancels = add st.id w.engine.cancels;
      halt_steps = remove st.id w.engine.halt_steps;
    };
  })
]

-- From the locked section to the body
unfoldable pub decide : Step → TaskDef → Bool → ℕ → World → Begun
unfolding leave consume_pause cancel_executed requeue_executed
decide st def halted now w =
    let dead =
      cancel_executed st "" now
        (record w { engine = record w.engine { cancelled = w.engine.cancelled ++ st.id ∷ [] } }) in
    let (unmarked, paused) = consume_pause st.id w.engine in
    let requeued = requeue_executed st now (record w { engine = unmarked }) in
    if halted && is_run_terminal st.run_id w.db
    then Begun.over (record dead { engine = leave st dead.engine })
    else if paused
    then Begun.over (record requeued { engine = leave st requeued.engine })
    else Begun.run def (record w { engine = unmarked })

-- recordFinalFailure
unfoldable pub publish_cancelled : String → ℕ → List String → Engine → Engine
unfolding publish
publish_cancelled run_id now [] e = e
publish_cancelled run_id now (name ∷ names) e =
    publish_cancelled run_id now names
      (publish (transition run_id name Status.running Status.cancelled "" now) e)

unfoldable pub record_final_failure : Step → String → ℕ → World → World
unfolding task_def publish publish_cancelled cancel_step_contexts finish_run wake_slot
record_final_failure st error now w =
    let dead : Bool = elim (task_def st.task w.engine) [
      | none ↦ false
      | some def ↦ def.dead_letter
    ] in
    elim (final_fail_step st.id st.run_id error dead now w.db) [
      | err e ↦ w
      | ok (db, res) ↦
          let told = cancel_step_contexts res.cancelled_step_ids (
            publish_cancelled st.run_id now res.cancelled_steps
              (moved st Status.failed error now w.engine)) in
          let finished =
            if res.run_terminal
            then finish_run st.run_id res.run_status [] res.run_error now told
            else told in
          record { db = db; engine = wake_slot finished }
    ]

module _ (scale jitter : ℕ → ℕ) where
  -- RetryStep after the backoff delay
  unfoldable pub retry_executed : TaskDef → Step → String → ℕ → World → World
  unfolding publish wake_scheduler delay
  retry_executed def st error now w = record {
    db = retry_step st.id error (now + delay scale jitter def.backoff st.attempts) w.db;
    engine = wake_scheduler (moved st Status.queued error now w.engine);
  }

  -- The switch on a body that ended with an error
  unfoldable pub settle_failure : TaskDef → Step → String → ℕ → World → World
  unfolding cancel_executed retry_executed record_final_failure
  settle_failure def st error now w =
      if is_run_terminal st.run_id w.db
      then cancel_executed st error now w
      else if w.engine.closing
      then w
      else if ltb st.attempts st.max_attempts
      then retry_executed def st error now w
      else record_final_failure st error now w

  -- execute, from the end of the body to the deferred calls
  unfoldable pub settle : TaskDef → Step → BodyEnd → ℕ → World → World
  unfolding cancel_executed publish consume_pause requeue_executed submit_completion
      record_final_failure settle_failure
  settle def st BodyEnd.suspended now w =
      if is_run_terminal st.run_id w.db
      then cancel_executed st "" now w
      else record w { engine = moved st Status.suspended "" now w.engine }
  settle def st (BodyEnd.returned out) now w =
      let (unmarked, _) = consume_pause st.id w.engine in
      submit_completion
        (record { step_id = st.id; run_id = st.run_id; name = st.name; output = out; now = now })
        (record w { engine = unmarked })
  settle def st (BodyEnd.failed error cancelled) now w =
      let (unmarked, paused) = consume_pause st.id w.engine in
      let w1 = record w { engine = unmarked } in
      if paused && (cancelled && not (is_run_terminal st.run_id w.db))
      then requeue_executed st now w1
      else settle_failure def st error now w1
  settle def st (BodyEnd.vetoed error) now w =
      let (unmarked, _) = consume_pause st.id w.engine in
      let w1 = record w { engine = unmarked } in
      if is_run_terminal st.run_id w.db
      then cancel_executed st error now w1
      else record_final_failure st error now w1

  unfoldable pub end_step : TaskDef → Step → BodyEnd → ℕ → World → World
  unfolding settle leave
  end_step def st body now w =
      let w1 = settle def st body now w in record w1 { engine = leave st w1.engine }
