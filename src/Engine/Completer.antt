-- ===== src/Engine/Completer.antt =====
-- The batched recording of step successes (completer.go).
use quacker.Prelude.{ℕ, String, true, List, [], ◌∷◌, ◌++◌, if◌then◌else◌}
use quacker.Store.Model.{Status, ok, err}
use quacker.Store.Complete.{Completion, CompleteResult, complete_step, complete_steps}
use quacker.Engine.State.{Engine, World, publish, transition, wake_scheduler, wake_slot}
use quacker.Engine.Control.{finish_run}

-- The announcement of the unblocked dependents.
unfoldable pub publish_ready : String → ℕ → List String → Engine → Engine
unfolding publish
publish_ready run_id now [] e = e
publish_ready run_id now (name ∷ names) e =
    publish_ready run_id now names
      (publish (transition run_id name Status.blocked Status.queued "" now) e)

-- afterComplete
unfoldable pub after_complete : Completion → CompleteResult → Engine → Engine
unfolding publish publish_ready finish_run wake_scheduler wake_slot
after_complete c res e =
    let refused =
      wake_slot (publish (transition c.run_id c.name Status.running Status.cancelled "" c.now) e) in
    let told =
      publish_ready c.run_id c.now res.ready_steps
        (publish (transition c.run_id c.name Status.running Status.succeeded "" c.now) e) in
    let finished =
      if res.run_terminal
      then finish_run c.run_id res.run_status res.run_output res.run_error c.now told
      else told in
    if res.step_done
    then elim res.ready_steps [ [] ↦ wake_slot finished | _ ∷ _ ↦ wake_scheduler finished ]
    else refused

-- completeDirect: an error is logged.
unfoldable pub complete_direct : Completion → World → World
unfolding after_complete
complete_direct c w = elim (complete_step c w.db) [
  | err e ↦ w
  | ok (db, res) ↦ record { db = db; engine = after_complete c res w.engine }
]

unfoldable pub complete_one_by_one : List Completion → World → World
unfolding complete_direct
complete_one_by_one [] w = w
complete_one_by_one (c ∷ cs) w = complete_one_by_one cs (complete_direct c w)

unfoldable pub after_all : List Completion → List CompleteResult → Engine → Engine
unfolding after_complete
after_all (c ∷ cs) (r ∷ rs) e = after_all cs rs (after_complete c r e)
after_all [] rs e = e
after_all (c ∷ cs) [] e = e

-- flushCompletions
unfoldable pub flush_completions : World → World
unfolding after_all complete_one_by_one
flush_completions w =
    let batch = w.engine.pending in
    let taken = record w.engine { pending = [] } in
    elim (complete_steps batch w.db) [
      | err e ↦ complete_one_by_one batch (record w { engine = taken })
      | ok (db, results) ↦ record { db = db; engine = after_all batch results taken }
    ]

-- submitCompletion
unfoldable pub submit_completion : Completion → World → World
unfolding complete_direct
submit_completion c w =
    let late = complete_direct c w in
    if w.engine.completer_stopped
    then late
    else record w { engine = record w.engine { pending = w.engine.pending ++ c ∷ [] } }

-- The completer's stop: later successes are written at once, and what is pending is drained.
unfoldable pub stop_completer : World → World
unfolding flush_completions
stop_completer w =
    flush_completions (record w { engine = record w.engine { completer_stopped = true } })
