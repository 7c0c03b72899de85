-- ===== src/Store/Examples.antt =====
-- The theorems on internal/store at concrete databases.
use quacker.Prelude.{
  ◌+◌, ℕ, ◌≤◌, String, ◌≡◌, ◌≢◌, refl, true, false, [], ◌∷◌, Memᴰ, arith, length, some, eq_iff, ◌-◌,
}
use quacker.Prelude.{all, any}
use quacker.Table.{count, order_by, select, first, insert_by, update}
use quacker.Table.Distinct.{distinct}
use quacker.Store.Model.{Status, Step, Db, OnOk}
use quacker.Store.Gates.{
  gates, key_gate, queue_paused_gate, run_not_paused_gate, seq_gate, keys_gate, label_gate,
}
use quacker.Store.Claim.{
  Claim, QueueClaim, claim_due, claim_due_multi, claimed_since, window_of, claim_queues,
  claim_queue, claim_each, claim_candidates, claim_limit, is_candidate, is_due, attach_run,
  claim_of, claim_row, claim_step, claimed_before, start_run, still_claimable,
}
use quacker.Store.Claim.KeyLimit.{IsCapped}
use quacker.Store.Claim.Order.{IsSequenced, claim_due_multi-IsSequenced}
use quacker.Store.Claim.Rate.{budget, claim_due_bounds}
use quacker.Store.Claim.Paused.{
  is_queue_paused, is_run_paused, runs_in_queue, runs_in_run, claim_due_multi_queue_paused,
  claim_due_multi_run_paused,
}
use quacker.Store.Claim.Report.{IsBacked, claim_due_multi-IsBacked}
use quacker.Store.Complete.{Completion, complete_step, complete_steps, final_fail_step}
use quacker.Store.Complete.Dependencies.{complete-IsDag, final_fail_step-IsDag}
use quacker.Store.Complete.Terminal.{Reports, complete_step-Reports}
use quacker.Store.Complete.Wakeup.{BelongsTo, complete_step-BlockedWait}
use quacker.Store.Dag.{BlockedWait, is_launched}
use quacker.Store.Dag.Keys.{IsDag}
use quacker.Store.Transitions.{here, next, claim, retry}
use quacker.Store.Transitions.Cap.{Reach-IsCapped}
use quacker.Store.Lifecycle.{retry_step}
use quacker.Store.ChainSamples.{chain_db-HasKeys, chain_db-IsDag, chain_db-BlockedWait}
use quacker.Store.Samples.{
  plain_run, plain_step, db_of, worker, queue_q, keyed, keyed_db, chain, chain_db, unique_ids, both,
  all_three,
}

abbrev key_k : String
key_k = "k"

k_named : key_k ≢ ""
k_named e = absurd (ground (arith, eq_iff "k" ""))

keyed_db-IsCapped : IsCapped "k" 1 keyed_db
unfolding count distinct any
keyed_db-IsCapped = record {
  ids = unique_ids keyed_db.steps refl;
  limits =
      all_three (λ s. s.concurrency_key ≡ "k" → s.key_limit ≡ 1) (keyed "a" Status.queued)
        (keyed "b" Status.queued) (keyed "c" Status.running) (λ _. refl) (λ _. refl) (λ _. refl);
  capped = omega arith;
}

-- The running step fails and is queued again, and a claim follows.
abbrev retried_db : Db
retried_db = retry_step "c" "boom" 5 keyed_db

abbrev claimed_db : Db
claimed_db = (claim_due_multi worker 9 retried_db (queue_q ∷ [])).0

Reach-IsCapped_example : IsCapped "k" 1 claimed_db
Reach-IsCapped_example =
    Reach-IsCapped "k" 1 keyed_db claimed_db k_named (omega arith) keyed_db-IsCapped
      (next (next here (retry "c" "boom" 5 refl)) (claim worker 9 (queue_q ∷ []) refl))

abbrev seq_step : String → Status → ℕ → Step
seq_step id status n = record (plain_step id "r" id status []) { sequence_key = "s"; seq = n }

abbrev seq_db : Db
seq_db =
    db_of (plain_run "r" Status.running ∷ [])
      (seq_step "x" Status.running 1 ∷ seq_step "y" Status.queued 2 ∷ [])

seq_db-IsSequenced : IsSequenced seq_db.steps
seq_db-IsSequenced r s m n run active same named =
    both (λ r. r.status ≡ Status.running → r.seq ≤ s.seq) (seq_step "x" Status.running 1)
      (seq_step "y" Status.queued 2)
      (λ _.
        both (λ s. 1 ≤ s.seq) (seq_step "x" Status.running 1) (seq_step "y" Status.queued 2)
          (omega arith) (omega arith) s n)
      (λ e. absurd (ground arith)) r m run

claim_due_multi-IsSequenced_example :
    IsSequenced (claim_due_multi worker 5 seq_db (queue_q ∷ [])).0.steps
claim_due_multi-IsSequenced_example =
    claim_due_multi-IsSequenced worker 5 (queue_q ∷ []) seq_db seq_db-IsSequenced

abbrev rated : QueueClaim
rated = record queue_q { rate_limit = 1 }

claim_due_bounds_example :
    (length (claim_due worker 5 seq_db rated).1 ≤ 5)
    × (count (claimed_since "q" (5 - window_of rated)) seq_db.steps
          + length (claim_due worker 5 seq_db rated).1
        ≤ budget seq_db rated 5)
    × (count (claimed_since "q" (5 - window_of rated)) (claim_due worker 5 seq_db rated).0.steps
        ≤ budget seq_db rated 5)
unfolding distinct any
claim_due_bounds_example = claim_due_bounds worker 5 seq_db rated (unique_ids seq_db.steps refl)

abbrev paused_db : Db
paused_db = record keyed_db { queue_pauses = "q" ∷ [] }

claim_due_multi_queue_paused_example :
    (is_queue_paused "q" (claim_due_multi worker 5 paused_db (queue_q ∷ [])).0 ≡ true)
    × (count (runs_in_queue "q") (claim_due_multi worker 5 paused_db (queue_q ∷ [])).0.steps
        ≤ count (runs_in_queue "q") paused_db.steps)
unfolding any
claim_due_multi_queue_paused_example =
    claim_due_multi_queue_paused worker 5 (queue_q ∷ []) paused_db "q" refl

abbrev paused_run_db : Db
paused_run_db = db_of (plain_run "r" Status.paused ∷ []) keyed_db.steps

claim_due_multi_run_paused_example :
    (is_run_paused "r" (claim_due_multi worker 5 paused_run_db (queue_q ∷ [])).0 ≡ true)
    × (count (runs_in_run "r") (claim_due_multi worker 5 paused_run_db (queue_q ∷ [])).0.steps
        ≤ count (runs_in_run "r") paused_run_db.steps)
unfolding any
claim_due_multi_run_paused_example =
    claim_due_multi_run_paused worker 5 (queue_q ∷ []) paused_run_db "r" refl

abbrev free_db : Db
free_db = db_of (plain_run "r" Status.queued ∷ []) (chain Status.queued Status.blocked)

abbrev first_claim : Claim
first_claim = record {
  step = record (plain_step "r/a" "r" "a" Status.running []) {
    attempts = 1;
    started_at = 5;
    claimed_at = 5;
    worker_id = "n1";
    lease_expires_at = 60;
  };
  run = some (record (plain_run "r" Status.running) { attempts = 1; started_at = 5 });
  resumed = false;
}

claimed_first : Memᴰ first_claim (claim_due_multi worker 5 free_db (queue_q ∷ [])).1
unfolding claim_due_multi claim_queues claim_queue claim_each claim_candidates claim_limit order_by
    select is_candidate is_due gates key_gate queue_paused_gate any run_not_paused_gate seq_gate
    keys_gate all attach_run claim_of claim_row claim_step claimed_before start_run still_claimable
    label_gate count first insert_by update
claimed_first = Memᴰ.head refl

claim_due_multi-IsBacked_example :
    IsBacked worker 5 (claim_due_multi worker 5 free_db (queue_q ∷ [])).0 first_claim
claim_due_multi-IsBacked_example =
    claim_due_multi-IsBacked worker 5 (queue_q ∷ []) free_db first_claim claimed_first

abbrev done_a : Completion
done_a = record { step_id = "r/a"; run_id = "r"; name = "a"; output = 1 ∷ []; now = 7 }

abbrev done_b : Completion
done_b = record { step_id = "r/b"; run_id = "r"; name = "b"; output = 2 ∷ []; now = 8 }

complete-IsDag_example :
    OnOk (λ r. IsDag r.0.steps) (complete_step done_a chain_db)
    × OnOk (λ r. IsDag r.0.steps) (complete_steps (done_a ∷ done_b ∷ []) chain_db)
complete-IsDag_example = complete-IsDag done_a (done_a ∷ done_b ∷ []) chain_db chain_db-IsDag

failing_a :
    (s : Step)
    → Memᴰ s chain_db.steps
    → s.id ≡ "r/a"
    → (is_launched s.status ≡ true) × (s.status ≢ Status.succeeded)
failing_a =
    both (λ s. s.id ≡ "r/a" → (is_launched s.status ≡ true) × (s.status ≢ Status.succeeded))
      (plain_step "r/a" "r" "a" Status.running [])
      (plain_step "r/b" "r" "b" Status.blocked ("a" ∷ []))
      (λ _. (refl, λ bad. absurd (ground arith))) (λ e. absurd (ground (arith, eq_iff "r/b" "r/a")))

final_fail_step-IsDag_example :
    OnOk (λ r. IsDag r.0.steps) (final_fail_step "r/a" "r" "boom" true 9 chain_db)
final_fail_step-IsDag_example =
    final_fail_step-IsDag "r/a" "r" "boom" true 9 chain_db failing_a chain_db-IsDag

complete_step-Reports_example : OnOk (Reports done_a) (complete_step done_a chain_db)
complete_step-Reports_example = complete_step-Reports done_a chain_db (
    both (λ s. s.id ≡ "r/a" → s.run_id ≡ "r") (plain_step "r/a" "r" "a" Status.running [])
      (plain_step "r/b" "r" "b" Status.blocked ("a" ∷ [])) (λ _. refl) (λ _. refl))

a-BelongsTo : BelongsTo done_a chain_db.steps
a-BelongsTo =
    both (λ s. s.id ≡ "r/a" → (s.run_id ≡ "r") × (s.name ≡ "a"))
      (plain_step "r/a" "r" "a" Status.running [])
      (plain_step "r/b" "r" "b" Status.blocked ("a" ∷ [])) (λ _. (refl, refl))
      (λ e. absurd (ground (arith, eq_iff "r/b" "r/a")))

complete_step-BlockedWait_example :
    OnOk (λ r. BlockedWait r.0.steps) (complete_step done_a chain_db)
complete_step-BlockedWait_example =
    complete_step-BlockedWait done_a chain_db chain_db-HasKeys a-BelongsTo chain_db-BlockedWait
