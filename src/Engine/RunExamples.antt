-- ===== src/Engine/RunExamples.antt =====
-- The theorems on the engine's handling of runs at concrete worlds.
use quacker.Prelude.{subst, sym, mem-singleton, length, all, map}
use quacker.Prelude.{
  ℕ, ◌≤◌, ◌<◌, ◌≡◌, ◌≢◌, ◌↔◌, ◌⊎◌, refl, true, false, String, List, [], ◌∷◌, ◌++◌, Memᴰ, none, some,
  inr, arith, any, str_eq,
}
use quacker.Table.{select, first, count, update, order_by, insert_by}
use quacker.Store.Model.{Status, Step, Run, Db, ok}
use quacker.Store.Dag.{BlockedWait}
use quacker.Store.Dag.Keys.{IsDag}
use quacker.Store.Enqueue.{
  inserted_run, inserted_step, insert_run, collides, holds_unique, insert_step, insert_each,
  all_steps, insert_key, all_keys, UniqueConflict, Job, no_policy, insert_job, insert_jobs,
  insert_chunks, insert_chunk,
}
use quacker.Store.Gates.{
  gates, key_gate, queue_paused_gate, run_not_paused_gate, seq_gate, keys_gate, label_gate,
}
use quacker.Store.Queries.{next_due, scheduled_times, minimum}
use quacker.Store.Lifecycle.{pause_run, cancel_run, cancel_run_tx, running_steps}
use quacker.Store.Claim.{
  claim_due_multi, claim_queues, claim_queue, claim_candidates, claim_limit, is_candidate, is_due,
  claim_each, claim_step, still_claimable, start_run, attach_run, claim_of, claim_row,
}
use quacker.Store.ChainSamples.{chain_db-IsDag, chain_db-BlockedWait}
use quacker.Store.Samples.{plain_run, plain_step, db_of, chain_db, worker, queue_q, both}
use quacker.Engine.Requests.{TaskDef}
use quacker.Engine.Dag.{validate_dag, check_names, link_steps, link_deps, visit, relax}
use quacker.Engine.Dag.Correct.{IsWorkflow, validate_dag_iff}
use quacker.Engine.State.{publish, World, is_queue, norm_queue, is_in, task_def}
use quacker.Engine.Build.{
  build_run, step_row, run_row, build_steps, finish_build, run_queue, extra_keys_of,
}
use quacker.Engine.Build.Fresh.{insert_job-IsDag}
use quacker.Engine.Control.{
  cancel_commit, cancel_finish, interrupt_local, cancel_step_contexts, halt_step, release,
  pause_commit, pause_finish, mark_paused, is_run_terminal,
}
use quacker.Engine.Execute.{BodyEnd, enter, decide, consume_pause, end_step}
use quacker.Engine.Execute.Settled.{Stopped, end_step-Stopped}
use quacker.Engine.Execute.Race.{Race, Move, Executor, play, at_start}
use quacker.Engine.Execute.Races.Cancelled.{cancel_race}
use quacker.Engine.Execute.Races.Paused.{pausing, pause_race}
use quacker.Engine.Tick.{
  tick, idle_wait, idle_cap, requests, has_slot, is_unpaused, claim_tick, take_claims, take_claim,
  is_fresh_start,
}
use quacker.Engine.Tick.Sleep.{idle_wait-claim_due_multi}
use quacker.Engine.Tick.Slots.{IsWithinSlots, tick-IsWithinSlots}
use quacker.Engine.RunSamples.{task_t, chain_reqs, engine_q, world_of, request_n}

chain_accepted : validate_dag chain_reqs ≡ none
unfolding validate_dag check_names link_steps link_deps visit relax any select
chain_accepted = refl

validate_dag_iff_example : (validate_dag chain_reqs ≡ none) ↔ IsWorkflow chain_reqs
validate_dag_iff_example = validate_dag_iff chain_reqs

-- The step "a" of the run runs; "b" waits for it.
abbrev step_a : Step
step_a = plain_step "r/a" "r" "a" Status.running []

abbrev step_b : Step
step_b = plain_step "r/b" "r" "b" Status.blocked ("a" ∷ [])

abbrev run_r : Run
run_r = plain_run "r" Status.running

chain_found : first (λ r. str_eq r.id "r") chain_db.runs ≡ some run_r
unfolding first
chain_found = refl

abbrev identity : ℕ → ℕ
identity n = n

end_step-Stopped_example :
    Stopped "r/a"
      (end_step identity identity task_t step_a
        (BodyEnd.failed "boom" false)
        5
        (world_of chain_db)).db.steps
end_step-Stopped_example =
    end_step-Stopped identity identity task_t step_a (BodyEnd.failed "boom" false) 5
      (world_of chain_db) run_r chain_found refl refl

-- The executor registers before the commit, and begins the body between it and the tombstones.
abbrev between : List Move
between = Move.enter_step 5 ∷ Move.commit ∷ Move.decide_step 6 ∷ Move.finish ∷ []

abbrev cancelled_race : Race
cancelled_race =
    play (cancel_commit "r" 5) cancel_finish step_a between (at_start (world_of chain_db))

cancel_race_example :
    (is_in "r/a" cancelled_race.world.engine.cancelled ≡ true)
    × (cancelled_race.executor ≢ Executor.claimed)
unfolding play enter cancel_commit cancel_run cancel_run_tx cancel_finish interrupt_local
    cancel_step_contexts halt_step release publish decide consume_pause task_def is_run_terminal
    running_steps select update first any
cancel_race_example =
    cancel_race step_a 5 (world_of chain_db) run_r between [] task_t chain_found refl refl
      (Memᴰ.head refl) refl refl refl refl

abbrev paused_race : Race
paused_race = play (pausing step_a 5) pause_finish step_a between (at_start (world_of chain_db))

pause_race_example :
    (is_in "r/a" paused_race.world.engine.cancelled ≡ true)
    × ((def : TaskDef) × (paused_race.executor ≡ Executor.in_body def))
unfolding play enter pausing pause_commit pause_run pause_finish mark_paused publish decide
    consume_pause task_def is_run_terminal running_steps select update first any
pause_race_example =
    pause_race step_a 5 (world_of chain_db) run_r between [] task_t chain_found refl refl
      (Memᴰ.head refl) refl refl refl

abbrev waiting_step : Step
waiting_step = record (plain_step "r/a" "r" "a" Status.queued []) { run_at = 20 }

abbrev waiting_db : Db
waiting_db = db_of (plain_run "r" Status.queued ∷ []) (waiting_step ∷ [])

idle_wait-claim_due_multi_example :
    (idle_wait 50 false 5 waiting_db ≡ 50)
    ⊎ ((idle_wait 50 false 5 waiting_db ≤ idle_cap false)
        × (claim_due_multi worker 12 waiting_db (queue_q ∷ []) ≡ (waiting_db, [])))
unfolding idle_wait next_due scheduled_times minimum select
idle_wait-claim_due_multi_example =
    idle_wait-claim_due_multi 50 false 5 12 worker (queue_q ∷ []) waiting_db
      (λ s m.
        subst (λ x. x.status ≡ Status.queued → 0 < x.run_at) (sym (mem-singleton s waiting_step m))
          (λ h. omega arith))
      (omega arith) (omega arith)

-- The queue "q" has one slot left, and a step is due.
abbrev due_world : World
due_world = world_of waiting_db

one_queue : (n : String) → count (is_queue n) engine_q.queues ≤ 1
unfolding count
one_queue n = ground arith

tick-IsWithinSlots_example : IsWithinSlots (tick 50 false worker 30 due_world).world.engine.queues
tick-IsWithinSlots_example = tick-IsWithinSlots 50 false worker 30 due_world one_queue (λ q m.
    subst (λ x. x.in_flight ≤ x.concurrency)
      (sym (
        mem-singleton q
          (record { name = "q"; concurrency = 2; in_flight = 1; rate_limit = 0; rate_window = 0 })
          m))
      (omega arith))

-- The tick takes the step up.
due_started : length (tick 50 false worker 30 due_world).spawned ≡ 1
unfolding tick requests has_slot is_unpaused claim_tick claim_due_multi claim_queues claim_queue
    claim_candidates claim_limit is_candidate is_due gates key_gate queue_paused_gate
    run_not_paused_gate seq_gate keys_gate label_gate claim_each claim_step still_claimable
    start_run attach_run claim_of claim_row take_claims take_claim is_fresh_start idle_wait select
    count update first any all order_by insert_by publish
due_started = refl

-- The job that the request becomes.
abbrev steps_n : List Step
steps_n =
    step_row "n" 5 request_n 0 (record { name = "a"; deps = []; def = some task_t }) task_t
    ∷ step_row "n" 5 request_n 1 (record { name = "b"; deps = "a" ∷ []; def = some task_t }) task_t
    ∷ []

abbrev job_n : Job
job_n = record {
  run =
      run_row "n" 5 request_n "q"
        (step_row "n" 5 request_n 0 (record { name = "a"; deps = []; def = some task_t }) task_t);
  steps = steps_n;
  conflict = UniqueConflict.unique_reuse;
  policy = no_policy;
}

abbrev chain_db_n : Db
chain_db_n = record chain_db {
  runs = chain_db.runs ++ inserted_run job_n.run ∷ [];
  steps = chain_db.steps ++ map inserted_step steps_n;
}

built_n : (build_run "n" 5 request_n (world_of chain_db)).1 ≡ inr (job_n.run, job_n.steps)
unfolding build_run validate_dag check_names link_steps link_deps visit relax any select build_steps
    finish_build run_queue norm_queue
built_n = refl

inserted_n : insert_job job_n chain_db ≡ ok chain_db_n
unfolding insert_job insert_jobs insert_chunks insert_chunk insert_run collides holds_unique
    insert_step insert_each all_steps insert_key all_keys any run_row step_row inserted_run
    inserted_step extra_keys_of select
inserted_n = refl

insert_job-IsDag_example : IsDag chain_db_n.steps × BlockedWait chain_db_n.steps
insert_job-IsDag_example =
    insert_job-IsDag "n" 5 request_n (world_of chain_db) job_n chain_db chain_db_n built_n
      chain_db-IsDag chain_db-BlockedWait
      (both (λ s. str_eq s.run_id "n" ≡ false) step_a step_b refl refl) inserted_n
