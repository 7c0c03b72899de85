-- ===== src/Store/QueryExamples.antt =====
-- The theorems on the inspection queries of internal/store at concrete databases.
use quacker.Prelude.{◌≡◌, [], ◌∷◌, arith, some, inr, ◌<◌}
use quacker.Table.{select, first}
use quacker.Store.Model.{Status, Cron, Db, empty_db}
use quacker.Store.Claim.{claim_due_multi}
use quacker.Store.Queries.{upsert_cron, next_due, scheduled_times, minimum}
use quacker.Store.Queries.Due.{claim_due_multi-next_due}
use quacker.Store.Queries.Crons.{cron_of, upsert_cron-cron_of}
use quacker.Store.Samples.{plain_run, plain_step, db_of, worker, queue_q, both}

-- Two steps that start at 20 and at 12.
abbrev later_db : Db
later_db = db_of (plain_run "r" Status.queued ∷ []) (
    record (plain_step "r/a" "r" "a" Status.queued []) { run_at = 20 }
    ∷ record (plain_step "r/b" "r" "b" Status.queued []) { run_at = 12 }
    ∷ [])

claim_due_multi-next_due_example : claim_due_multi worker 5 later_db (queue_q ∷ []) ≡ (later_db, [])
unfolding next_due scheduled_times minimum select
claim_due_multi-next_due_example =
    claim_due_multi-next_due worker 5 (queue_q ∷ []) later_db
      (both (λ s. s.status ≡ Status.queued → 0 < s.run_at)
        (record (plain_step "r/a" "r" "a" Status.queued []) { run_at = 20 })
        (record (plain_step "r/b" "r" "b" Status.queued []) { run_at = 12 }) (λ _. omega arith)
        (λ _. omega arith))
      (inr (omega arith))

abbrev nightly : Cron
nightly = record {
  name = "nightly";
  spec = "0 3 * * *";
  task = "t";
  input = [];
  next_at = 3;
  created_at = 1;
}

abbrev nightly_later : Cron
nightly_later = record nightly { spec = "0 4 * * *"; next_at = 4; created_at = 2 }

upsert_cron-cron_of_example :
    cron_of "nightly" (upsert_cron nightly_later (record empty_db { crons = nightly ∷ [] })).crons
    ≡ some (record nightly_later { created_at = 1 })
unfolding first
upsert_cron-cron_of_example =
    upsert_cron-cron_of nightly_later (record empty_db { crons = nightly ∷ [] }) "nightly"
