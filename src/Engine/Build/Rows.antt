-- ===== src/Engine/Build/Rows.antt =====
-- The rows that buildRun makes, against the steps of the request.
use quacker.Prelude.{
  ℤ, pos, negsuc, zero, ℕ, suc, ◌≤◌, ◌≡◌, refl, sym, String, true, List, [], ◌∷◌, Option, none,
  some, str_eq, eq_iff, ◌⊎◌, inl, inr, Bool-cases, Option-cases, arith, subst,
}
use quacker.Store.Model.{Status, Bytes, Step, Run}
use quacker.Engine.Requests.{StepReq, TaskDef, EnqueueRequest}
use quacker.Engine.Dag.{DagError, validate_dag}
use quacker.Engine.Dag.Correct.{IsWorkflow, validate_dag-IsWorkflow}
use quacker.Engine.State.{World, at_least_one, ensure_queue, norm_queue}
use quacker.Engine.Triggers.{register_task}
use quacker.Engine.Build.{
  BuildError, Built, key_of, start_status, step_id, step_row, run_row, run_queue, build_steps,
  finish_build, build_run,
}

-- A row carries out its request: where it belongs, what it waits for, and where it starts.
pub record IsRowOf (run_id : String) (sr : StepReq) (s : Step) : Type 0 where
  pub named : s.name ≡ sr.name
  pub id : s.id ≡ step_id run_id sr.name
  pub home : s.run_id ≡ run_id
  pub deps : s.depends_on ≡ sr.deps
  pub status : s.status ≡ start_status sr.deps
  pub limited : (str_eq s.concurrency_key "" ≡ true) ⊎ (1 ≤ s.key_limit)

pub data Rows (run_id : String) : List StepReq → List Step → Type 0 where
  no_rows : Rows run_id [] []
  row :
      {sr : StepReq} {s : Step} {srs : List StepReq} {steps : List Step}
      → IsRowOf run_id sr s
      → Rows run_id srs steps
      → Rows run_id (sr ∷ srs) (s ∷ steps)

one_or_more : (n : ℤ) → 1 ≤ at_least_one n
one_or_more (pos zero) = omega arith
one_or_more (pos (suc n)) = omega arith
one_or_more (negsuc n) = omega arith

key_of-limited :
    (def : TaskDef) (input : Bytes)
    → (str_eq (key_of def input).0 "" ≡ true) ⊎ (1 ≤ (key_of def input).1)
unfolding key_of
key_of-limited def input = elim (Option-cases def.key_fn) [
  | inl e ↦ inl (rw (e, key_of) ((eq_iff "" "").1 refl))
  | inr (f, e) ↦ elim (Bool-cases (str_eq (f input) "")) [
    | inl k ↦ inl (rw (e, key_of) k)
    | inr k ↦ inr (rw (e, key_of, k) (one_or_more def.key_limit))
  ]
]

step_row-IsRowOf :
    (run_id : String) (now : ℕ) (req : EnqueueRequest) (ord : ℕ) (sr : StepReq) (def : TaskDef)
    → IsRowOf run_id sr (step_row run_id now req ord sr def)
unfolding step_row
step_row-IsRowOf run_id now req ord sr def = record {
  named = refl;
  id = refl;
  home = refl;
  deps = refl;
  status = refl;
  limited = key_of-limited def req.input;
}

abbrev Outcome : Type 0
Outcome = BuildError ⊎ List Step

build_steps-Rows :
    (run_id : String) (now : ℕ) (req : EnqueueRequest) (ord : ℕ) (srs : List StepReq) (w : World)
    (steps : List Step)
    → (build_steps run_id now req ord srs w).1 ≡ inr steps
    → Rows run_id srs steps
unfolding build_steps
build_steps-Rows run_id now req ord [] w steps h =
    let same : [] ≡ steps = cc in subst (λ xs. Rows run_id [] xs) same Rows.no_rows
build_steps-Rows run_id now req ord (sr ∷ srs) w steps h = elim (Option-cases sr.def) [
  | inl e ↦
      let bad : inl (BuildError.no_task_def sr.name) ≡ inr steps = rw (e, build_steps) at h in cc
  | inr (def, e) ↦
      let w1 = register_task now def w in
      let w2 : World = record w1 { engine = ensure_queue (norm_queue def.queue) w1.engine } in
      rest def w2 (build_steps-Rows run_id now req (suc ord) srs w2)
        (build_steps run_id now req (suc ord) srs w2).1 refl (rw (e, build_steps) at h)
]
  where
    rest :
        (def : TaskDef) (w2 : World)
        → ((ss : List Step)
            → (build_steps run_id now req (suc ord) srs w2).1 ≡ inr ss
            → Rows run_id srs ss)
        → (r : Outcome) → (build_steps run_id now req (suc ord) srs w2).1 ≡ r
        → elim (build_steps run_id now req (suc ord) srs w2).1 [
          | inl e ↦ inl e
          | inr ss ↦ inr (step_row run_id now req ord sr def ∷ ss)
        ]
          ≡ inr steps
        → Rows run_id (sr ∷ srs) steps
    rest def w2 later (inl e) k l = let bad : inl e ≡ inr steps = rw k at l in cc
    rest def w2 later (inr ss) k l =
        let all_rows : inr (step_row run_id now req ord sr def ∷ ss) ≡ inr steps = rw k at l in
        let same : step_row run_id now req ord sr def ∷ ss ≡ steps = cc in
        subst (λ xs. Rows run_id (sr ∷ srs) xs) same
          (Rows.row (step_row-IsRowOf run_id now req ord sr def) (later ss k))

-- What buildRun returns, when it returns a run.
pub record Launch (run_id : String) (req : EnqueueRequest) (run : Run) (steps : List Step)
    : Type 0 where
  pub rows : Rows run_id req.steps steps
  pub workflow : IsWorkflow req.steps
  pub id : run.id ≡ run_id
  pub status : run.status ≡ Status.queued

finish_build-Launch :
    (run_id : String) (now : ℕ) (req : EnqueueRequest) (queue : String) (r : Outcome) (run : Run)
    (steps : List Step)
    → ((ss : List Step) → r ≡ inr ss → Rows run_id req.steps ss)
    → IsWorkflow req.steps
    → finish_build run_id now req queue r ≡ inr (run, steps)
    → Launch run_id req run steps
unfolding finish_build run_row
finish_build-Launch run_id now req queue (inl e) run steps rows w h = cc
finish_build-Launch run_id now req queue (inr []) run steps rows w h = cc
finish_build-Launch run_id now req queue (inr (s ∷ ss)) run steps rows w h =
    let built : Built = (run_row run_id now req queue s, s ∷ ss) in
    let given : Built = (run, steps) in
    let same : built ≡ given = cc in
    subst (λ b. Launch run_id req b.0 b.1) same
      (record { rows = rows (s ∷ ss) refl; workflow = w; id = refl; status = refl })

pub build_run-Launch :
    (run_id : String) (now : ℕ) (req : EnqueueRequest) (w : World) (run : Run) (steps : List Step)
    → (build_run run_id now req w).1 ≡ inr (run, steps)
    → Launch run_id req run steps
unfolding build_run
build_run-Launch run_id now req w run steps h = split req.steps refl
  where
    checked :
        (sr : StepReq) (srs : List StepReq) (o : Option DagError)
        → req.steps ≡ sr ∷ srs
        → validate_dag (sr ∷ srs) ≡ o
        → Launch run_id req run steps
    checked sr srs (some e) k v =
        let bad : inl (BuildError.invalid_dag e) ≡ inr (run, steps) = rw (k, build_run, v) at h in
        cc
    checked sr srs none k v =
        let w1 : World = record w { engine = ensure_queue (run_queue req sr) w.engine } in
        let r = (build_steps run_id now req 0 (sr ∷ srs) w1).1 in
        let made : finish_build run_id now req (run_queue req sr) r ≡ inr (run, steps) =
          rw (k, build_run, v) at h in
        finish_build-Launch run_id now req (run_queue req sr) r run steps
          (λ ss e.
            subst (λ rs. Rows run_id rs ss) (sym k)
              (build_steps-Rows run_id now req 0 (sr ∷ srs) w1 ss e))
          (subst IsWorkflow (sym k) (validate_dag-IsWorkflow (sr ∷ srs) v)) made

    split : (rs : List StepReq) → req.steps ≡ rs → Launch run_id req run steps
    split [] k = let bad : inl BuildError.no_steps ≡ inr (run, steps) = rw (k, build_run) at h in cc
    split (sr ∷ srs) k = checked sr srs (validate_dag (sr ∷ srs)) k refl
