-- ===== src/Store/Claim/Loop.antt =====
-- Proof rules for the claim loops: what one round keeps, the whole batch keeps.
use quacker.Prelude.{ℕ, List, [], ◌∷◌}
use quacker.Store.Model.{Step, Db}
use quacker.Store.Claim.{
  Worker, QueueClaim, claim_step, claim_each, claim_queue, claim_queues, claim_due_multi,
}

module _ (P : Db → Type 0) (w : Worker) (now : ℕ)
    (round : (db : Db) (st : Step) → P db → P (claim_step w now db st).0) where
  pub claim_each_inv : (cands : List Step) (db : Db) → P db → P (claim_each w now db cands).0
  unfolding claim_each
  claim_each_inv [] db p = p
  claim_each_inv (st ∷ rest) db p = claim_each_inv rest (claim_step w now db st).0 (round db st p)

  pub claim_queues_inv : (qs : List QueueClaim) (db : Db) → P db → P (claim_queues w now db qs).0
  unfolding claim_queues claim_queue
  claim_queues_inv [] db p = p
  claim_queues_inv (q ∷ qs) db p =
      claim_queues_inv qs (claim_queue w now db q).0 (claim_each_inv _ db p)

  pub claim_due_multi_inv :
      (qs : List QueueClaim) (db : Db) → P db → P (claim_due_multi w now db qs).0
  unfolding claim_due_multi
  claim_due_multi_inv qs db p = claim_queues_inv qs db p
