-- ===== src/Engine/Control.antt =====
-- What the engine does with a run from outside its steps (engine.go): finishing, cancelling, pausing,
-- resuming, snoozing and retrying it, and pausing queues. A store error leaves everything as it is.
use quacker.Prelude.{ℕ, String, Bool, false, List, [], ◌∷◌, ◌++◌, Option, none, some, if◌then◌else◌}
use quacker.Table.{first}
use quacker.Store.Model.{Status, is_terminal, Bytes, Db, Result, ok, err}
use quacker.Store.Complete.{is_run}
use quacker.Store.Lifecycle.{cancel_run, pause_run, resume_run, snooze, pause_queue, resume_queue}
use quacker.Store.Purge.{retry_dead_letter}
use quacker.Engine.State.{
  Release, WaitError, Engine, World, is_in, add, remove, publish, transition, wake_scheduler,
}

-- runErr
unfoldable pub run_err : String → Option Status → String → Option WaitError
run_err run_id (some Status.failed) msg = some (WaitError.run_error run_id msg)
run_err run_id (some Status.cancelled) msg = some WaitError.run_cancelled
run_err run_id (some Status.interrupted) msg = some WaitError.run_interrupted
run_err run_id _ msg = none

-- The waiter leaves the map and is finished, if there is one.
unfoldable pub release : Release → Engine → Engine
release r e = record e {
  waiters = remove r.run_id e.waiters;
  released = if is_in r.run_id e.waiters then e.released ++ r ∷ [] else e.released;
}

-- finishRun, without the plugins' OnRunFinished
unfoldable pub finish_run : String → Option Status → Bytes → String → ℕ → Engine → Engine
unfolding run_err release publish
finish_run run_id status output msg now e =
    publish
      (record {
        run_id = run_id;
        step = "";
        from_status = Status.running;
        to_status = status;
        error = msg;
        at = now;
      })
      (release
        (record {
          run_id = run_id;
          status = status;
          output = output;
          error = run_err run_id status msg;
        })
        e)

-- runTerminal: a run that is gone is not terminal here.
unfoldable pub is_run_terminal : String → Db → Bool
is_run_terminal run_id db = elim (first (is_run run_id) db.runs) [
  | none ↦ false
  | some r ↦ is_terminal r.status
]

-- cancelStepContexts, and the loop of interruptLocal: a step whose executor has no cancel function yet
-- gets a tombstone.
unfoldable pub halt_step : String → Engine → Engine
halt_step id e =
    if is_in id e.cancels
    then record e { cancelled = e.cancelled ++ id ∷ [] }
    else record e { halt_steps = add id e.halt_steps }

unfoldable pub cancel_step_contexts : List String → Engine → Engine
unfolding halt_step
cancel_step_contexts [] e = e
cancel_step_contexts (id ∷ ids) e = cancel_step_contexts ids (halt_step id e)

-- interruptLocal
unfoldable pub interrupt_local : String → Status → List String → ℕ → Engine → Engine
unfolding cancel_step_contexts release publish
interrupt_local run_id prev_status running now e =
    publish (transition run_id "" prev_status Status.cancelled "" now) (
      release
        (record {
          run_id = run_id;
          status = some Status.cancelled;
          output = [];
          error = some WaitError.run_cancelled;
        })
        (cancel_step_contexts running e))

-- What a commit leaves to do in the engine. Other goroutines may run before it is done.
pub record Interrupt : Type 0 where
  pub run_id : String
  pub prev_status : Status
  pub running : List String
  pub at : ℕ

-- Cancel, up to the commit of CancelRun: a run that is unknown or has ended is left alone.
unfoldable pub cancel_commit : String → ℕ → World → World × Option Interrupt
cancel_commit run_id now w = elim (cancel_run run_id now w.db) [
  | err e ↦ (w, none)
  | ok (db, r) ↦
      if r.changed
      then (
        record w { db = db },
        some (record {
          run_id = run_id;
          prev_status = r.prev_status;
          running = r.running;
          at = now;
        }),
      )
      else (w, none)
]

-- Cancel, after the commit
unfoldable pub cancel_finish : Interrupt → World → World
unfolding interrupt_local
cancel_finish i w = record w {
  engine = interrupt_local i.run_id i.prev_status i.running i.at w.engine;
}

-- PauseRun, up to its commit and after it: each running step is marked, and its context cancelled if it
-- has one.
unfoldable pub mark_paused : List String → Engine → Engine
mark_paused [] e = e
mark_paused (id ∷ ids) e = mark_paused ids (record e {
  pause_steps = add id e.pause_steps;
  cancelled = if is_in id e.cancels then e.cancelled ++ id ∷ [] else e.cancelled;
})

unfoldable pub pause_commit : String → ℕ → World → Result (World × Option Interrupt)
pause_commit run_id now w = elim (pause_run run_id now w.db) [
  | err e ↦ err e
  | ok (db, r) ↦ ok (
      if r.changed
      then (
        record w { db = db },
        some (record {
          run_id = run_id;
          prev_status = r.prev_status;
          running = r.running;
          at = now;
        }),
      )
      else (w, none))
]

unfoldable pub pause_finish : Interrupt → World → World
unfolding mark_paused publish
pause_finish i w = record w {
  engine =
      publish (transition i.run_id "" i.prev_status Status.paused "" i.at)
        (mark_paused i.running w.engine);
}

-- ResumeRun, RetryDeadLetter and Snooze
unfoldable pub resume : String → ℕ → World → Result World
unfolding publish wake_scheduler
resume run_id now w = elim (resume_run run_id now w.db) [
  | err e ↦ err e
  | ok db ↦ ok (record {
    db = db;
    engine =
        wake_scheduler (publish (transition run_id "" Status.paused Status.queued "" now) w.engine);
  })
]

unfoldable pub retry_dead : String → ℕ → World → Result World
unfolding publish wake_scheduler
retry_dead run_id now w = elim (retry_dead_letter run_id now w.db) [
  | err e ↦ err e
  | ok db ↦ ok (record {
    db = db;
    engine =
        wake_scheduler (publish (transition run_id "" Status.failed Status.queued "" now) w.engine);
  })
]

unfoldable pub snooze_until : String → ℕ → World → Result World
unfolding wake_scheduler
snooze_until run_id until w = elim (snooze run_id until w.db) [
  | err e ↦ err e
  | ok db ↦ ok (record { db = db; engine = wake_scheduler w.engine })
]

-- PauseQueue and ResumeQueue
unfoldable pub stop_queue : String → World → World
stop_queue name w = record {
  db = pause_queue name w.db;
  engine = record w.engine { paused = add name w.engine.paused };
}

unfoldable pub start_queue : String → World → World
unfolding wake_scheduler
start_queue name w = record {
  db = resume_queue name w.db;
  engine = wake_scheduler (record w.engine { paused = remove name w.engine.paused });
}
