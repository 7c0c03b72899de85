-- ===== src/Store/ChainSamples.antt =====
-- The promises of the step graph, on the sample run of two steps.
use quacker.Prelude.{◌≡◌, refl, true, String, [], ◌∷◌, Memᴰ, arith, any, not-mem-nil}
use quacker.Table.Distinct.{distinct}
use quacker.Store.Model.{Status}
use quacker.Store.Dag.{Done, BlockedWait, HasKeys, is_launched}
use quacker.Store.Dag.Keys.{IsDag}
use quacker.Store.Samples.{plain_step, chain_db, both, keyed_rows}

pub chain_db-HasKeys : HasKeys chain_db.steps
unfolding distinct any
chain_db-HasKeys = keyed_rows chain_db.steps refl refl

pub chain_db-IsDag : IsDag chain_db.steps
chain_db-IsDag = record {
  keys = chain_db-HasKeys;
  promise =
      both
        (λ s.
          is_launched s.status ≡ true
          → (d : String) → Memᴰ d s.depends_on
          → Done chain_db.steps s.run_id d)
        (plain_step "r/a" "r" "a" Status.running [])
        (plain_step "r/b" "r" "b" Status.blocked ("a" ∷ [])) (λ _ d m. absurd (not-mem-nil d m))
        (λ bad. absurd (ground arith));
}

waits_a : Done chain_db.steps "r" "a" → ⊥
waits_a d =
    both (λ s. s.name ≡ "a" → s.status ≡ Status.succeeded → ⊥)
      (plain_step "r/a" "r" "a" Status.running [])
      (plain_step "r/b" "r" "b" Status.blocked ("a" ∷ [])) (λ _ bad. absurd (ground arith))
      (λ _ bad. absurd (ground arith)) d.step d.mem d.named d.succeeded

pub chain_db-BlockedWait : BlockedWait chain_db.steps
chain_db-BlockedWait =
    both
      (λ s.
        s.status ≡ Status.blocked
        → (d : String) × Memᴰ d s.depends_on × (Done chain_db.steps s.run_id d → ⊥))
      (plain_step "r/a" "r" "a" Status.running [])
      (plain_step "r/b" "r" "b" Status.blocked ("a" ∷ [])) (λ bad. absurd (ground arith))
      (λ _. ("a", Memᴰ.head refl, waits_a))
