-- ===== src/Store/Claim/Order.antt =====
-- The order in which claims start the steps of a sequence.
use quacker.Prelude.{
  ℕ, ◌≤◌, ◌≡◌, ◌≢◌, refl, sym, ◌∙◌, true, inl, inr, Bool-cases, ◌⊎◌, eq_iff, arith, List, Memᴰ, any,
  any-mem,
}
use quacker.Table.Laws.{mem-update_all}
use quacker.Store.Model.{Status, is, is_active, Step, Db}
use quacker.Store.Gates.{seq_gate, is_earlier, gates_parts}
use quacker.Store.Claim.{
  Worker, QueueClaim, claim_step, still_claimable, claim_row, claim_due_multi,
}
use quacker.Store.Claim.Loop.{claim_due_multi_inv}
use quacker.Store.Claim.KeyLimit.{claim_step-steps, still_claimable_passes}

-- A RUNNING step is not behind an unfinished step of its sequence.
abbrev pub IsSequenced : List Step → Type 0
IsSequenced steps =
    (r s : Step)
    → Memᴰ r steps
    → Memᴰ s steps
    → r.status ≡ Status.running
    → is_active s.status ≡ true
    → s.sequence_key ≡ r.sequence_key
    → s.sequence_key ≢ ""
    → r.seq ≤ s.seq

seq_gate-le :
    (steps : List Step) (r s : Step)
    → seq_gate steps r ≡ true
    → Memᴰ s steps
    → is_active s.status ≡ true
    → s.sequence_key ≡ r.sequence_key
    → s.sequence_key ≢ ""
    → r.seq ≤ s.seq
unfolding seq_gate
seq_gate-le steps r s gate m act same named = elim (Bool-cases (is_earlier r s)) [
  | inl early ↦
      let found : any (is_earlier r) steps ≡ true = any-mem (is_earlier r) steps s m early in
      ground arith
  | inr late ↦ ground (arith, eq_iff s.sequence_key r.sequence_key, eq_iff s.sequence_key "")
]

-- A claimed row was unfinished, and keeps its place in its sequence.
claimed_place :
    (w : Worker) (now : ℕ) (db : Db) (st r : Step)
    → still_claimable db now st r ≡ true
    → (is_active r.status ≡ true)
      × ((claim_row w now st r).sequence_key ≡ r.sequence_key)
      × ((claim_row w now st r).seq ≡ r.seq)
unfolding still_claimable claim_row
claimed_place w now db st r h = elim (Bool-cases (is Status.suspended st.status)) [
  | inl e ↦ rw e (ground arith, refl, refl)
  | inr e ↦ rw e (ground arith, refl, refl)
]

module _ (w : Worker) (now : ℕ) (db : Db) (st : Step) (inv : IsSequenced db.steps) where
  -- The place of a row before the round, with what is known of the row then.
  record Before (s : Step) : Type 0 where
    row : Step
    mem : Memᴰ row db.steps
    active : is_active s.status ≡ true → is_active row.status ≡ true
    key : s.sequence_key ≡ row.sequence_key
    place : s.seq ≡ row.seq
    gate :
        s.status ≡ Status.running → (row.status ≡ Status.running) ⊎ (seq_gate db.steps row ≡ true)

  before : (s : Step) → Memᴰ s (claim_step w now db st).0.steps → Before s
  before s m =
      mem-update_all Before (still_claimable db now st) (claim_row w now st) db.steps
        (λ x n. record {
          row = x;
          mem = n;
          active = λ a. a;
          key = refl;
          place = refl;
          gate = λ e. inl e;
        })
        (λ x n hit.
          let (act, key, place) = claimed_place w now db st x hit in
          record {
            row = x;
            mem = n;
            active = λ _. act;
            key = key;
            place = place;
            gate = λ _. inr ((gates_parts db x (still_claimable_passes db now st x hit).1).3);
          })
        s (rw (claim_step-steps w now db st) at m)

  claim_step-IsSequenced : IsSequenced (claim_step w now db st).0.steps
  claim_step-IsSequenced r s mr ms running act same named =
      let a = before r mr in
      let b = before s ms in
      let same_key : b.row.sequence_key ≡ a.row.sequence_key = sym b.key ∙ same ∙ a.key in
      let is_named : b.row.sequence_key ≢ "" = λ e. named (b.key ∙ e) in
      elim (a.gate running) [
        | inl runs ↦ omega (
          arith,
          inv a.row b.row a.mem b.mem runs (b.active act) same_key is_named,
          a.place,
          b.place,
        )
        | inr gate ↦ omega (
          arith,
          seq_gate-le db.steps a.row b.row gate b.mem (b.active act) same_key is_named,
          a.place,
          b.place,
        )
      ]

-- A claim batch keeps sequences in order: if no RUNNING step stands behind an unfinished step of
-- its (named) sequence with a smaller sequence number, then the same holds after the batch.
pub claim_due_multi-IsSequenced :
    (w : Worker) (now : ℕ) (qs : List QueueClaim) (db : Db)
    → IsSequenced db.steps
    → IsSequenced (claim_due_multi w now db qs).0.steps
claim_due_multi-IsSequenced w now qs db inv =
    claim_due_multi_inv (λ d. IsSequenced d.steps) w now (claim_step-IsSequenced w now) qs db inv
