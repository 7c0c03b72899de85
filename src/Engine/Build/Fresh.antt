-- ===== src/Engine/Build/Fresh.antt =====
-- The rows that buildRun makes, inserted into the tables of the store.
use quacker.Prelude.{append-nil, append-snoc}
use quacker.Prelude.{any-mem, not-mem-nil}
use quacker.Store.Model.{StepKey, OnOk-mono}
use quacker.Store.Enqueue.{collides, inserted_run}
use quacker.Prelude.{
  ℕ, suc, ◌≤◌, ◌≡◌, refl, sym, ◌∙◌, String, true, false, List, [], ◌∷◌, ◌++◌, map, any, str_eq,
  eq_iff, inl, inr, Bool-cases, Memᴰ, arith, ap, subst, mem-cons_cases, &&-true, if◌then◌else◌,
  mem-append_cases, mem-append_left, mem-map_cases,
}
use quacker.Table.{count}
use quacker.Table.Laws.{count-append, count_cases}
use quacker.Store.Model.{Status, Step, Run, Db, ok, OnOk, OnOk-bind}
use quacker.Store.Dag.{named_in, DepsDone, BlockedWait, Done, is_launched}
use quacker.Store.Dag.Keys.{IsDag}
use quacker.Store.Enqueue.{Job, inserted_step, insert_run, insert_job, is_key_row}
use quacker.Store.Enqueue.OneByOne.{insert_steps, insert_keys, insert_one, insert_job_lem}
use quacker.Engine.Requests.{StepReq, EnqueueRequest}
use quacker.Engine.Dag.{has_name}
use quacker.Engine.State.{World}
use quacker.Engine.Build.{build_run, start_status}
use quacker.Engine.Build.Rows.{IsRowOf, Rows, Launch, build_run-Launch}

abbrev Ids : List Step → Type 0
Ids steps = (i : String) → count (λ s. str_eq s.id i) steps ≤ 1

abbrev Names : List Step → Type 0
Names steps = (r n : String) → count (named_in r n) steps ≤ 1

abbrev Grown : List Step → List Step → Db → Type 0
Grown old new d = (d.steps ≡ old ++ map inserted_step new) × Ids d.steps

insert_keys-steps :
    (step_id : String) (ks : List StepKey) (db : Db)
    → OnOk (λ d. d.steps ≡ db.steps) (insert_keys step_id ks db)
unfolding insert_keys
insert_keys-steps step_id [] db = refl
insert_keys-steps step_id (k ∷ ks) db =
    elim (Bool-cases (any (is_key_row step_id k) db.step_keys)) [
      | inl e ↦ rw e tt
      | inr e ↦ rw e (insert_keys-steps step_id ks _)
    ]

-- A row with a new id keeps the ids apart.
Ids-snoc :
    (st : Step) (steps : List Step)
    → Ids steps
    → any (λ s. str_eq s.id st.id) steps ≡ false
    → Ids (steps ++ inserted_step st ∷ [])
unfolding count inserted_step
Ids-snoc st steps ids fresh i =
    let sum = count-append (λ s. str_eq s.id i) steps (inserted_step st ∷ []) in
    let le = ids i in
    elim (Bool-cases (str_eq st.id i)) [
      | inr e ↦ rw (sum, e) (omega (arith, le))
      | inl e ↦ elim (count_cases (λ s. str_eq s.id i) steps) [
        | inl z ↦ rw (sum, e, z) (omega arith)
        | inr (y, m, k) ↦
            let same : str_eq y.id st.id ≡ true =
              (eq_iff _ _).1 ((eq_iff y.id i).0 k ∙ sym ((eq_iff st.id i).0 e)) in
            let hit = any-mem (λ s. str_eq s.id st.id) steps y m same in
            absurd (ground (arith, hit, fresh))
      ]
    ]

insert_steps-Grown :
    (sts : List Step) (db : Db) → Ids db.steps → OnOk (Grown db.steps sts) (insert_steps sts db)
unfolding insert_steps
insert_steps-Grown [] db ids = (sym (append-nil db.steps), ids)
insert_steps-Grown (st ∷ sts) db ids = elim (Bool-cases (any (λ s. str_eq s.id st.id) db.steps)) [
  | inl e ↦ rw e tt
  | inr e ↦
      let added = db.steps ++ inserted_step st ∷ [] in
      let db1 : Db = record db { steps = added } in
      let ids1 = Ids-snoc st db.steps ids e in
      rw e (
        OnOk-bind (λ d. d.steps ≡ added) (Grown db.steps (st ∷ sts)) (insert_keys st.id st.keys db1)
          (insert_steps sts) (insert_keys-steps st.id st.keys db1)
          (λ d same.
            let rest = insert_steps-Grown sts d (subst Ids (sym same) ids1) in
            subst (λ l. OnOk (λ d'. (d'.steps ≡ l) × Ids d'.steps) (insert_steps sts d))
              (ap (λ l. l ++ map inserted_step sts) same
                ∙ append-snoc db.steps (inserted_step st) (map inserted_step sts))
              rest))
]

turn : (a b : String) → str_eq a b ≡ str_eq b a
turn a b = elim (Bool-cases (str_eq b a)) [
  | inl e ↦ (eq_iff a b).1 (sym ((eq_iff b a).0 e)) ∙ sym e
  | inr e ↦ elim (Bool-cases (str_eq a b)) [
    | inl k ↦
        let k' : str_eq b a ≡ true = (eq_iff b a).1 (sym ((eq_iff a b).0 k)) in
        absurd (ground (arith, e, k'))
    | inr k ↦ k ∙ sym e
  ]
]

-- A row of a run stems from a step of its request.
mem-Rows :
    {run_id : String} {srs : List StepReq} {steps : List Step} (t : Step)
    → Rows run_id srs steps
    → Memᴰ t steps
    → (sr : StepReq) × IsRowOf run_id sr t
mem-Rows t Rows.no_rows m = elim m [ ]
mem-Rows t (Rows.row {sr} r rows) m = elim (mem-cons_cases m) [
  | inl same ↦ (sr, subst (IsRowOf _ sr) (sym same) r)
  | inr later ↦ mem-Rows t rows later
]

count-Rows :
    {run_id : String} {srs : List StepReq} {steps : List Step} (r n : String)
    → Rows run_id srs steps
    → count (named_in r n) (map inserted_step steps)
      ≡ (if str_eq run_id r then count (has_name n) srs else 0)
unfolding count inserted_step
count-Rows {run_id} r n Rows.no_rows = elim (Bool-cases (str_eq run_id r)) [
  | inl e ↦ rw e refl
  | inr e ↦ rw e refl
]
count-Rows {run_id} r n (Rows.row {sr} {s} row rows) =
    let rest = count-Rows r n rows in
    let home : str_eq s.run_id r ≡ str_eq run_id r = ap (λ x. str_eq x r) row.home in
    let name : str_eq s.name n ≡ str_eq sr.name n = ap (λ x. str_eq x n) row.named in
    let turned : str_eq sr.name n ≡ str_eq n sr.name = turn sr.name n in
    simp (home, name ∙ turned)
      (elim (Bool-cases (str_eq run_id r)) [
        | inl e ↦ rw e (elim (Bool-cases (str_eq n sr.name)) [
          | inl k ↦ rw k (ap suc (rw e at rest))
          | inr k ↦ rw k (rw e at rest)
        ])
        | inr e ↦ rw e (rw e at rest)
      ])

module _ {run_id : String} {req : EnqueueRequest} {run : Run} {steps : List Step}
    (launch : Launch run_id req run steps) (old : List Step)
    (fresh : (s : Step) → Memᴰ s old → str_eq s.run_id run_id ≡ false) where
  grown : List Step
  grown = old ++ map inserted_step steps

  -- A new row, as its request and not yet as anything that ran.
  new_row :
      (s : Step)
      → Memᴰ s (map inserted_step steps)
      → (sr : StepReq) × (s.run_id ≡ run_id)
        × (s.depends_on ≡ sr.deps)
        × (s.status ≡ start_status sr.deps)
  unfolding inserted_step
  new_row s m =
      let (t, k, e) = mem-map_cases inserted_step s steps m in
      let (sr, row) = mem-Rows t launch.rows k in
      (
        sr,
        ap (λ x. x.run_id) e ∙ row.home,
        ap (λ x. x.depends_on) e ∙ row.deps,
        ap (λ x. x.status) e ∙ row.status,
      )

  -- Only an old row can have succeeded.
  Done-old :
      (r d : String)
      → Done (old ++ map inserted_step steps) r d
      → Done old r d × (str_eq r run_id ≡ false)
  Done-old r d done = elim (mem-append_cases done.step old (map inserted_step steps) done.mem) [
    | inl m ↦ (
      record {
        step = done.step;
        mem = m;
        home = done.home;
        named = done.named;
        succeeded = done.succeeded;
      },
      subst (λ x. str_eq x run_id ≡ false) done.home (fresh done.step m),
    )
    | inr m ↦
        let (sr, _, _, status) = new_row done.step m in
        absurd (not_started sr.deps (sym status ∙ done.succeeded))
  ]
    where
      not_started : (deps : List String) → start_status deps ≡ Status.succeeded → ⊥
      not_started [] e = cc
      not_started (x ∷ deps) e = cc

  grown-DepsDone : DepsDone old → DepsDone (old ++ map inserted_step steps)
  grown-DepsDone deps_done s m launched d k =
      elim (mem-append_cases s old (map inserted_step steps) m) [
        | inl n ↦
            let done = deps_done s n launched d k in
            record {
              step = done.step;
              mem = mem-append_left done.step old (map inserted_step steps) done.mem;
              home = done.home;
              named = done.named;
              succeeded = done.succeeded;
            }
        | inr n ↦
            let (sr, _, deps, status) = new_row s n in
            absurd (
              waits sr.deps (subst (λ x. is_launched x ≡ true) status launched) d
                (subst (λ x. Memᴰ d x) deps k))
      ]
    where
      waits :
          (deps : List String)
          → is_launched (start_status deps) ≡ true
          → (d : String) → Memᴰ d deps
          → ⊥
      waits [] h d m = not-mem-nil d m
      waits (x ∷ deps) h d m = cc

  grown-BlockedWait : BlockedWait old → BlockedWait (old ++ map inserted_step steps)
  grown-BlockedWait waiting s m blocked =
      elim (mem-append_cases s old (map inserted_step steps) m) [
        | inl n ↦
            let (d, k, undone) = waiting s n blocked in
            (d, k, λ done. undone (Done-old s.run_id d done).0)
        | inr n ↦
            let (sr, home, deps, status) = new_row s n in
            let (d, k) = waits_for sr.deps (sym status ∙ blocked) in
            (
              d,
              subst (λ x. Memᴰ d x) (sym deps) k,
              λ done.
                  let other = (Done-old s.run_id d done).1 in
                  let same : str_eq s.run_id run_id ≡ true = (eq_iff _ _).1 home in
                  absurd (ground (arith, other, same)),
            )
      ]
    where
      waits_for :
          (deps : List String) → start_status deps ≡ Status.blocked → (d : String) × Memᴰ d deps
      waits_for [] e = cc
      waits_for (d ∷ deps) e = (d, Memᴰ.head refl)

  grown-names :
      ((r n : String) → count (named_in r n) old ≤ 1)
      → (r n : String) → count (named_in r n) (old ++ map inserted_step steps) ≤ 1
  grown-names names r n =
      let sum = count-append (named_in r n) old (map inserted_step steps) in
      let new = count-Rows r n launch.rows in
      let le = names r n in
      elim (Bool-cases (str_eq run_id r)) [
        | inr e ↦ rw (sum, new, e) (omega (arith, le))
        | inl e ↦ elim (count_cases (named_in r n) old) [
          | inl z ↦ let one = launch.workflow.unique n in rw (sum, new, e, z) (omega (arith, one))
          | inr (s, m, k) ↦
              let (home, _) = &&-true _ _ k in
              let same : str_eq s.run_id run_id ≡ true =
                (eq_iff _ _).1 ((eq_iff s.run_id r).0 home ∙ sym ((eq_iff run_id r).0 e)) in
              let other = fresh s m in absurd (ground (arith, other, same))
        ]
      ]

-- Inserting what buildRun made keeps the step graphs well formed: if the steps table is so before, no row
-- of it is of the new run, and the insert succeeds, then the keys of the table are unique after it, a step
-- that has been queued has all of its dependencies done, and a BLOCKED step waits for one that is not.
pub insert_job-IsDag :
    (run_id : String) (now : ℕ) (req : EnqueueRequest) (w : World) (j : Job) (db db' : Db)
    → (build_run run_id now req w).1 ≡ inr (j.run, j.steps)
    → IsDag db.steps
    → BlockedWait db.steps
    → ((s : Step) → Memᴰ s db.steps → str_eq s.run_id run_id ≡ false)
    → insert_job j db ≡ ok db'
    → IsDag db'.steps × BlockedWait db'.steps
unfolding insert_one insert_run
insert_job-IsDag run_id now req w j db db' built dag waiting fresh inserted =
    subst (OnOk WellFormed) (sym (insert_job_lem j db) ∙ inserted)
      (elim (Bool-cases (any (collides j.run) db.runs)) [
        | inl e ↦ rw e tt
        | inr e ↦
            let db1 : Db = record db { runs = db.runs ++ inserted_run j.run ∷ [] } in
            rw e (
              OnOk-mono (Grown db.steps j.steps) WellFormed (insert_steps j.steps db1)
                (λ d grown_table. well_formed d grown_table)
                (insert_steps-Grown j.steps db1 dag.keys.ids))
      ])
  where
    WellFormed : Db → Type 0
    WellFormed d = IsDag d.steps × BlockedWait d.steps

    well_formed : (d : Db) → Grown db.steps j.steps d → WellFormed d
    well_formed d (same, ids) =
        let launch = build_run-Launch run_id now req w j.run j.steps built in
        let names = grown-names launch db.steps fresh dag.keys.names in
        let deps_done = grown-DepsDone launch db.steps fresh dag.promise in
        let waits = grown-BlockedWait launch db.steps fresh waiting in
        (
          record {
            keys = record { ids = ids; names = subst Names (sym same) names };
            promise = subst DepsDone (sym same) deps_done;
          },
          subst BlockedWait (sym same) waits,
        )
