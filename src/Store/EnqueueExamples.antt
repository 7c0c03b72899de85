-- ===== src/Store/EnqueueExamples.antt =====
-- The theorems on enqueues at concrete jobs.
use quacker.Prelude.{
  ℕ, String, ◌≡◌, ◌≢◌, refl, true, false, List, [], ◌∷◌, Memᴰ, arith, any, not-mem-nil,
}
use quacker.Table.{count, update, select, first, order_by, insert_by}
use quacker.Store.Model.{Status, is_terminal, Cron, Db, empty_db, ok, err}
use quacker.Store.Enqueue.{
  Job, Enqueue, UniqueConflict, no_policy, create_jobs, start_enqueue, enqueue_each, enqueue_step,
  enqueue_numbered, place, place_unique, place_fresh, resolve_conflict, insert_now, insert_job,
  insert_jobs, insert_chunks, insert_chunk, insert_run, insert_step, insert_each, all_steps,
  insert_key, all_keys, inserted_run, inserted_step, collides, holds_unique, live_run_by_unique,
  replace_run, alloc_seq, number_job, flush, fire_cron,
}
use quacker.Store.Enqueue.Firing.{fire_cron_once}
use quacker.Store.Enqueue.Holders.{HasLiveKeys}
use quacker.Store.Enqueue.History.{start, enqueue, History-HasLiveKeys}
use quacker.Store.Samples.{plain_run, plain_step, both}

abbrev plain_job : String → Job
plain_job id = record {
  run = plain_run id Status.queued;
  steps = plain_step id id "t" Status.queued [] ∷ [];
  conflict = UniqueConflict.unique_reuse;
  policy = no_policy;
}

-- A unique job that replaces the live holder of its key.
abbrev unique_job : String → Job
unique_job id = record (plain_job id) {
  run = record (plain_run id Status.queued) { unique_key = "u" };
  conflict = UniqueConflict.unique_replace;
}

abbrev two_jobs : List Job
two_jobs = unique_job "x" ∷ unique_job "y" ∷ []

abbrev enqueued : Enqueue
enqueued = elim (create_jobs 5 two_jobs empty_db) [ ok e ↦ e | err x ↦ start_enqueue [] empty_db ]

two_jobs-live : (j : Job) → Memᴰ j two_jobs → is_terminal j.run.status ≡ false
two_jobs-live =
    both (λ j. is_terminal j.run.status ≡ false) (unique_job "x") (unique_job "y") refl refl

two_jobs-enqueued : create_jobs 5 two_jobs empty_db ≡ ok enqueued
unfolding create_jobs start_enqueue enqueue_each enqueue_step enqueue_numbered place place_unique
    place_fresh resolve_conflict insert_now insert_job insert_jobs insert_chunks insert_chunk
    insert_run insert_step insert_each all_steps insert_key all_keys inserted_run inserted_step
    collides holds_unique live_run_by_unique replace_run alloc_seq number_job flush count update
    select first order_by insert_by any
two_jobs-enqueued = refl

empty-HasLiveKeys : HasLiveKeys empty_db.runs
unfolding count
empty-HasLiveKeys = record {
  one = λ workflow key. omega arith;
  live = λ r m. absurd (not-mem-nil r m);
}

History-HasLiveKeys_example : HasLiveKeys enqueued.db.runs
History-HasLiveKeys_example =
    History-HasLiveKeys empty_db enqueued.db empty-HasLiveKeys
      (enqueue 5 two_jobs enqueued start two_jobs-live two_jobs-enqueued)

abbrev nightly : Cron
nightly = record {
  name = "n";
  spec = "@every 10ns";
  task = "t";
  input = [];
  next_at = 10;
  created_at = 1;
}

abbrev cron_db : Db
cron_db = record empty_db { crons = nightly ∷ [] }

abbrev fired_db : Db
fired_db = elim (fire_cron "n" 10 20 (plain_job "c1") cron_db) [ ok r ↦ r.0 | err x ↦ empty_db ]

nightly_fired : fire_cron "n" 10 20 (plain_job "c1") cron_db ≡ ok (fired_db, true)
unfolding fire_cron insert_job insert_jobs insert_chunks insert_chunk insert_run insert_step
    insert_each all_steps insert_key all_keys inserted_run inserted_step collides holds_unique count
    update any
nightly_fired = refl

abbrev ten : ℕ
ten = 10

ten_twenty : ten ≢ 20
ten_twenty e = omega (arith, e)

fire_cron_once_example : fire_cron "n" 10 30 (plain_job "c2") fired_db ≡ ok (fired_db, false)
fire_cron_once_example =
    fire_cron_once "n" 10 20 30 (plain_job "c1") (plain_job "c2") cron_db fired_db ten_twenty
      nightly_fired
