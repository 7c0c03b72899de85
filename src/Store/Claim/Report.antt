-- ===== src/Store/Claim/Report.antt =====
-- What a claim batch reports, against the rows that it leaves.
use quacker.Prelude.{
  ℕ, ◌≡◌, refl, sym, ap, ◌∙◌, true, ◌⊎◌, inl, inr, Bool-cases, Option-cases, str_eq, eq_iff, arith,
  List, [], ◌∷◌, Memᴰ, ◌==◌, mem-append_cases, mem-map_cases, not-mem-nil, mem-singleton, String,
}
use quacker.Table.{count, first}
use quacker.Table.Laws.{count_cases, mem-update_intro, mem-take, mem-order_by, mem-select}
use quacker.Store.Model.{Status, is, Step, Db}
use quacker.Store.Gates.{label_gate}
use quacker.Store.Claim.{
  Worker, QueueClaim, Claim, claim_step, claim_each, claim_queue, claim_queues, still_claimable,
  claim_row, claim_of, claim_due_multi, claim_candidates, is_candidate, attach_run, claimed_before,
  claim_limit,
}
use quacker.Store.Claim.KeyLimit.{claim_step-steps, still_claimable_passes}

-- A row that the worker holds under a lease since `now`.
pub record IsHeld (w : Worker) (now : ℕ) (id : String) (s : Step) : Type 0 where
  pub named : s.id ≡ id
  pub running : s.status ≡ Status.running
  pub since : s.claimed_at ≡ now
  pub holder : s.worker_id ≡ w.id
  pub lease : s.lease_expires_at ≡ w.lease_until

module _ (w : Worker) (now : ℕ) where
  abbrev pub Holds : String → Db → Type 0
  Holds id db = (s : Step) × Memᴰ s db.steps × IsHeld w now id s

  claim_row-IsHeld :
      (db : Db) (st r : Step)
      → still_claimable db now st r ≡ true
      → IsHeld w now st.id (claim_row w now st r)
  unfolding claim_row
  claim_row-IsHeld db st r hit =
      let same = (eq_iff r.id st.id).0 (still_claimable_passes db now st r hit).0 in
      elim (Bool-cases (is Status.suspended st.status)) [
        | inl e ↦
            rw e
              (record { named = same; running = refl; since = refl; holder = refl; lease = refl })
        | inr e ↦
            rw e
              (record { named = same; running = refl; since = refl; holder = refl; lease = refl })
      ]

  -- A later round leaves a held row alone or claims it anew for the same worker.
  claim_step-Holds :
      (id : String) (db : Db) (st : Step) → Holds id db → Holds id (claim_step w now db st).0
  claim_step-Holds id db st (s, m, held) =
      let q = still_claimable db now st in
      let n = mem-update_intro q (claim_row w now st) s db.steps m in
      elim (Bool-cases (q s)) [
        | inl hit ↦
            let anew = claim_row-IsHeld db st s hit in
            (
              claim_row w now st s,
              rw (claim_step-steps w now db st) (rw hit at n),
              record {
                named =
                    anew.named
                    ∙ sym ((eq_iff s.id st.id).0 (still_claimable_passes db now st s hit).0)
                    ∙ held.named;
                running = anew.running;
                since = anew.since;
                holder = anew.holder;
                lease = anew.lease;
              },
            )
        | inr miss ↦ (s, rw (claim_step-steps w now db st) (rw miss at n), held)
      ]

  claim_each-Holds :
      (id : String) (cands : List Step) (db : Db)
      → Holds id db
      → Holds id (claim_each w now db cands).0
  unfolding claim_each
  claim_each-Holds id [] db h = h
  claim_each-Holds id (st ∷ rest) db h =
      claim_each-Holds id rest (claim_step w now db st).0 (claim_step-Holds id db st h)

  claim_queues-Holds :
      (id : String) (qs : List QueueClaim) (db : Db)
      → Holds id db
      → Holds id (claim_queues w now db qs).0
  unfolding claim_queues claim_queue
  claim_queues-Holds id [] db h = h
  claim_queues-Holds id (q ∷ qs) db h =
      claim_queues-Holds id qs (claim_queue w now db q).0 (claim_each-Holds id _ db h)

  -- What is shown of a claim: the row it stands for is held, and its labels are the worker's.
  abbrev pub IsBacked : Db → Claim → Type 0
  IsBacked db c = Holds c.step.id db × (label_gate w.labels c.step ≡ true)

  claim_step_cases :
      (db : Db) (st : Step)
      → ((claim_step w now db st).1 ≡ [])
        ⊎ (((claim_step w now db st).1 ≡ claim_of w now st ∷ [])
            × ((r : Step) × Memᴰ r db.steps × (still_claimable db now st r ≡ true)))
  unfolding claim_step
  claim_step_cases db st = elim (Bool-cases (count (still_claimable db now st) db.steps == 1)) [
    | inl e ↦ elim (count_cases (still_claimable db now st) db.steps) [
      | inl z ↦ absurd (ground arith)
      | inr found ↦ inr (rw e refl, found)
    ]
    | inr e ↦ inl (rw e refl)
  ]

  claim_of-IsBacked :
      (db : Db) (st r : Step)
      → label_gate w.labels st ≡ true
      → Memᴰ r db.steps
      → still_claimable db now st r ≡ true
      → IsBacked (claim_step w now db st).0 (claim_of w now st)
  unfolding claim_of label_gate
  claim_of-IsBacked db st r labelled m hit =
      let n = mem-update_intro (still_claimable db now st) (claim_row w now st) r db.steps m in
      (
        (
          claim_row w now st r,
          rw (claim_step-steps w now db st) (rw hit at n),
          claim_row-IsHeld db st r hit,
        ),
        labelled,
      )

  claim_each-IsBacked :
      (cands : List Step) (db : Db)
      → ((st : Step) → Memᴰ st cands → label_gate w.labels st ≡ true)
      → (c : Claim) → Memᴰ c (claim_each w now db cands).1
      → IsBacked (claim_each w now db cands).0 c
  unfolding claim_each
  claim_each-IsBacked [] db labelled c m = elim m [ ]
  claim_each-IsBacked (st ∷ rest) db labelled c m =
      let db1 = (claim_step w now db st).0 in
      elim (mem-append_cases c (claim_step w now db st).1 (claim_each w now db1 rest).1 m) [
        | inl here ↦ elim (claim_step_cases db st) [
          | inl e ↦ absurd (not-mem-nil c (rw e at here))
          | inr (e, found) ↦
              let (r, n, hit) = found in
              let same = mem-singleton c (claim_of w now st) (rw e at here) in
              let (held, labels) = claim_of-IsBacked db st r (labelled st (Memᴰ.head refl)) n hit in
              rw same (claim_each-Holds _ rest db1 held, labels)
        ]
        | inr later ↦ claim_each-IsBacked rest db1 (λ s n. labelled s (Memᴰ.tail n)) c later
      ]

  candidates_labelled :
      (db : Db) (queue : String) (limit : ℕ) (st : Step)
      → Memᴰ st (claim_candidates db queue now w.labels limit)
      → label_gate w.labels st ≡ true
  unfolding claim_candidates is_candidate
  candidates_labelled db queue limit st m =
      let (_, h) =
        mem-select (is_candidate db queue now w.labels) st db.steps
          (mem-order_by claimed_before st _ (mem-take limit st _ m)) in
      ground arith

  claim_queues-IsBacked :
      (qs : List QueueClaim) (db : Db) (c : Claim)
      → Memᴰ c (claim_queues w now db qs).1
      → IsBacked (claim_queues w now db qs).0 c
  unfolding claim_queues claim_queue
  claim_queues-IsBacked [] db c m = elim m [ ]
  claim_queues-IsBacked (q ∷ qs) db c m =
      let cands = claim_candidates db q.name now w.labels (claim_limit db q now) in
      let db1 = (claim_each w now db cands).0 in
      elim (mem-append_cases c (claim_each w now db cands).1 (claim_queues w now db1 qs).1 m) [
        | inl here ↦
            let (held, labels) =
              claim_each-IsBacked cands db (candidates_labelled db q.name (claim_limit db q now)) c
                here in
            (claim_queues-Holds _ qs db1 held, labels)
        | inr later ↦ claim_queues-IsBacked qs db1 c later
      ]

  attach_run-step : (db : Db) (c : Claim) → (attach_run db now c).step ≡ c.step
  unfolding attach_run
  attach_run-step db c = elim (Option-cases (first (λ r. str_eq r.id c.step.run_id) db.runs)) [
    | inl e ↦ rw (e, attach_run) refl
    | inr (r, e) ↦ rw (e, attach_run) refl
  ]

-- For every claim that a batch reports, the database that it leaves has a step with the claimed id
-- that is RUNNING, claimed at `now`, and leased to the worker until the given deadline, and the labels
-- that the claimed step requires are among the worker's.
pub claim_due_multi-IsBacked :
    (w : Worker) (now : ℕ) (qs : List QueueClaim) (db : Db) (c : Claim)
    → Memᴰ c (claim_due_multi w now db qs).1
    → IsBacked w now (claim_due_multi w now db qs).0 c
unfolding claim_due_multi
claim_due_multi-IsBacked w now qs db c m =
    let db' = (claim_queues w now db qs).0 in
    let (c0, n, e) = mem-map_cases (attach_run db' now) c (claim_queues w now db qs).1 m in
    let same : c.step ≡ c0.step = ap (λ x. x.step) e ∙ attach_run-step w now db' c0 in
    rw same (claim_queues-IsBacked w now qs db c0 n)
