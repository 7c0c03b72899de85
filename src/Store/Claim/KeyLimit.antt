-- ===== src/Store/Claim/KeyLimit.antt =====
-- The per-key concurrency cap of a claim batch.
use quacker.Prelude.{
  ℕ, ◌≤◌, ◌<◌, String, ◌≡◌, ◌≢◌, refl, sym, ap, ◌∙◌, Bool, true, ◌&&◌, inl, inr, subst, Bool-cases,
  &&-true, str_eq, eq_iff, arith, List, Memᴰ, ◌==◌,
}
use quacker.Table.{count, update}
use quacker.Table.Laws.{count-update-le, count-update_same, count_mono, count_cases, mem-update_all}
use quacker.Store.Model.{Status, is, Step, Db}
use quacker.Store.Gates.{runs_with_key, key_gate, gates, gates_parts}
use quacker.Store.Claim.{
  Worker, QueueClaim, still_claimable, claim_row, claim_step, claim_due_multi,
}
use quacker.Store.Claim.Loop.{claim_due_multi_inv}

-- The primary key of the steps table.
abbrev pub HasUniqueIds : List Step → Type 0
HasUniqueIds steps = (i : String) → count (λ s. str_eq s.id i) steps ≤ 1

-- Every step with the key carries the same limit.
abbrev pub HasLimit : String → ℕ → List Step → Type 0
HasLimit key limit steps = (s : Step) → Memᴰ s steps → s.concurrency_key ≡ key → s.key_limit ≡ limit

pub claim_row_keeps :
    (w : Worker) (now : ℕ) (st r : Step)
    → ((claim_row w now st r).id ≡ r.id)
      × ((claim_row w now st r).concurrency_key ≡ r.concurrency_key)
      × ((claim_row w now st r).key_limit ≡ r.key_limit)
unfolding claim_row
claim_row_keeps w now st r = elim (Bool-cases (is Status.suspended st.status)) [
  | inl e ↦ rw e (refl, refl, refl)
  | inr e ↦ rw e (refl, refl, refl)
]

-- What a row that passes the guarded UPDATE has passed.
pub still_claimable_passes :
    (db : Db) (now : ℕ) (st r : Step)
    → still_claimable db now st r ≡ true
    → (str_eq r.id st.id ≡ true) × (gates db r ≡ true)
unfolding still_claimable
still_claimable_passes db now st r h = let (i, rest) = &&-true _ _ h in (i, (&&-true _ _ rest).1)

key_gate-lt :
    (steps : List Step) (r : Step) (key : String)
    → key ≢ ""
    → r.concurrency_key ≡ key
    → 0 < r.key_limit
    → key_gate steps r ≡ true
    → count (runs_with_key key) steps < r.key_limit
unfolding key_gate
key_gate-lt steps r key named e pos h =
    subst (λ k. count (runs_with_key k) steps < r.key_limit) e
      (ground (arith, eq_iff r.concurrency_key ""))

-- The statement that every claim round keeps.
pub record IsCapped (key : String) (limit : ℕ) (db : Db) : Type 0 where
  pub ids : HasUniqueIds db.steps
  pub limits : HasLimit key limit db.steps
  pub capped : count (runs_with_key key) db.steps ≤ limit

pub claim_step-steps :
    (w : Worker) (now : ℕ) (db : Db) (st : Step)
    → (claim_step w now db st).0.steps
      ≡ update (still_claimable db now st) (claim_row w now st) db.steps
unfolding claim_step
claim_step-steps w now db st = elim (Bool-cases (count (still_claimable db now st) db.steps == 1)) [
  | inl e ↦ rw e refl
  | inr e ↦ rw e refl
]

-- At most one row passes the guarded UPDATE, since it names a primary key.
pub count-still_claimable-le :
    (db : Db) (now : ℕ) (st : Step) (p : Step → Bool)
    → HasUniqueIds db.steps
    → count (λ r. still_claimable db now st r && p r) db.steps ≤ 1
count-still_claimable-le db now st p ids = omega (
  arith,
  count_mono (λ r. still_claimable db now st r && p r) (λ s. str_eq s.id st.id) db.steps
      (λ r h. (still_claimable_passes db now st r (&&-true _ _ h).0).0),
  ids st.id,
)

pub claim_step-ids :
    (w : Worker) (now : ℕ) (db : Db) (st : Step)
    → HasUniqueIds db.steps
    → HasUniqueIds (claim_step w now db st).0.steps
claim_step-ids w now db st ids i = rw (claim_step-steps w now db st) (
    rw
      (count-update_same (λ s. str_eq s.id i) (still_claimable db now st) (claim_row w now st)
        db.steps (λ x _. ap (λ n. str_eq n i) (claim_row_keeps w now st x).0))
      (ids i))

module _ (w : Worker) (now : ℕ) (key : String) (limit : ℕ) (named : key ≢ "")
    (pos : 0 < limit) where
  claim_step-limits :
      (db : Db) (st : Step)
      → HasLimit key limit db.steps
      → HasLimit key limit (claim_step w now db st).0.steps
  claim_step-limits db st h s m =
      mem-update_all (λ s. s.concurrency_key ≡ key → s.key_limit ≡ limit)
        (still_claimable db now st) (claim_row w now st) db.steps h
        (λ x n _ e.
          let (_, same_key, same_limit) = claim_row_keeps w now st x in
          same_limit ∙ h x n (sym same_key ∙ e))
        s (rw (claim_step-steps w now db st) at m)

  -- A row that the round moves to RUNNING under the key found a free slot.
  free_slot :
      (db : Db) (st r : Step)
      → IsCapped key limit db
      → Memᴰ r db.steps
      → (still_claimable db now st r && runs_with_key key (claim_row w now st r)) ≡ true
      → count (runs_with_key key) db.steps < limit
  free_slot db st r inv m h =
      let (hit, runs) = &&-true _ _ h in
      let same : r.concurrency_key ≡ key =
        sym (claim_row_keeps w now st r).1 ∙ (eq_iff _ key).0 (&&-true _ _ runs).0 in
      let is_limit : r.key_limit ≡ limit = inv.limits r m same in
      subst (λ n. count (runs_with_key key) db.steps < n) is_limit
        (key_gate-lt db.steps r key named same (rw is_limit pos)
          (gates_parts db r (still_claimable_passes db now st r hit).1).0)

  claim_step-capped :
      (db : Db) (st : Step)
      → IsCapped key limit db
      → count (runs_with_key key) (claim_step w now db st).0.steps ≤ limit
  claim_step-capped db st inv =
      let moved =
        λ (r : Step). still_claimable db now st r && runs_with_key key (claim_row w now st r) in
      rw (claim_step-steps w now db st) (elim (count_cases moved db.steps) [
        | inl z ↦ omega (
          arith,
          count-update-le (runs_with_key key) (still_claimable db now st) (claim_row w now st)
              db.steps,
          z,
          inv.capped,
        )
        | inr (r, m, h) ↦ omega (
          arith,
          count-update-le (runs_with_key key) (still_claimable db now st) (claim_row w now st)
              db.steps,
          count-still_claimable-le db now st (λ x. runs_with_key key (claim_row w now st x))
              inv.ids,
          free_slot db st r inv m h,
        )
      ])

  claim_step-IsCapped :
      (db : Db) (st : Step) → IsCapped key limit db → IsCapped key limit (claim_step w now db st).0
  claim_step-IsCapped db st inv = record {
    ids = claim_step-ids w now db st inv.ids;
    limits = claim_step-limits db st inv.limits;
    capped = claim_step-capped db st inv;
  }

-- A claim batch keeps the cap of a concurrency key: if step ids are unique, every step that carries
-- the key `key` (not the empty key) has the same limit, which is at least 1, and at most that many
-- steps with the key are RUNNING, then all three still hold after the batch, whatever queues it
-- claims from and whatever their limits are.
pub claim_due_multi-IsCapped :
    (w : Worker) (now : ℕ) (key : String) (limit : ℕ) (qs : List QueueClaim) (db : Db)
    → key ≢ ""
    → 0 < limit
    → IsCapped key limit db
    → IsCapped key limit (claim_due_multi w now db qs).0
claim_due_multi-IsCapped w now key limit qs db named pos inv =
    claim_due_multi_inv (IsCapped key limit) w now (claim_step-IsCapped w now key limit named pos)
      qs db inv
