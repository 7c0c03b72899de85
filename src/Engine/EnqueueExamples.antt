-- ===== src/Engine/EnqueueExamples.antt =====
-- The theorem on EnqueueBatch at a concrete batch.
use quacker.Prelude.{
  ◌≡◌, refl, false, String, List, [], ◌∷◌, Memᴰ, Option, none, some, inl, any, mem-cons_cases, inr,
  not-mem-nil,
}
use quacker.Table.{select, count, delete}
use quacker.Store.Model.{Error}
use quacker.Store.Samples.{chain_db}
use quacker.Store.Enqueue.{
  create_jobs, start_enqueue, alloc_seq, enqueue_each, enqueue_step, enqueue_numbered, flush,
  insert_job, insert_jobs, insert_chunks, insert_chunk, insert_run, collides, holds_unique,
  insert_step, insert_each, all_steps, insert_key, all_keys, inserted_run, inserted_step,
}
use quacker.Engine.Requests.{EnqueueRequest}
use quacker.Engine.Dag.{validate_dag, check_names, link_steps, link_deps, visit, relax}
use quacker.Engine.Triggers.{register_task}
use quacker.Engine.State.{ensure_queue, World, is_in, norm_queue}
use quacker.Engine.Build.{
  build_run, step_row, run_row, build_steps, finish_build, run_queue, extra_keys_of, key_of,
  sequence_key_of,
}
use quacker.Engine.Enqueue.{
  EnqueueError, EnqueueInfo, create_runs, policy_of, prepare, commit_batch, enqueue_batch,
}
use quacker.Engine.Enqueue.Failed.{Same, enqueue_batch-Same}
use quacker.Engine.RunSamples.{request_n, world_of}

-- The second run has the id of the first, so that the transaction fails after the first insert.
abbrev same_ids : List (String × Option EnqueueRequest)
same_ids = ("n", some request_n) ∷ ("n", some request_n) ∷ []

abbrev no_veto : EnqueueInfo → Option String
no_veto info = none

abbrev no_tracer : String → String
no_tracer id = ""

abbrev left_behind : World
left_behind = (enqueue_batch no_veto no_tracer 5 same_ids (world_of chain_db)).0

refused :
    enqueue_batch no_veto no_tracer 5 same_ids (world_of chain_db)
    ≡ (left_behind, inl (EnqueueError.store_error Error.unique_violation))
unfolding enqueue_batch prepare commit_batch create_runs policy_of build_run validate_dag
    check_names link_steps link_deps visit relax any select build_steps finish_build run_queue
    norm_queue create_jobs start_enqueue alloc_seq count enqueue_each enqueue_step enqueue_numbered
    flush insert_job insert_jobs insert_chunks insert_chunk insert_run collides holds_unique
    insert_step insert_each all_steps insert_key all_keys run_row step_row inserted_run
    inserted_step extra_keys_of key_of sequence_key_of ensure_queue register_task delete
refused = refl

unwaited : (id : String) → Memᴰ id ("n" ∷ "n" ∷ []) → is_in id ("r" ∷ []) ≡ false
unfolding any
unwaited id m = elim (mem-cons_cases m) [
  | inl e ↦ rw e refl
  | inr n ↦ elim (mem-cons_cases n) [ inl e ↦ rw e refl | inr k ↦ absurd (not-mem-nil id k) ]
]

enqueue_batch-Same_example : Same (world_of chain_db) left_behind
enqueue_batch-Same_example =
    enqueue_batch-Same no_veto no_tracer 5 same_ids (world_of chain_db) left_behind
      (EnqueueError.store_error Error.unique_violation) unwaited refused
