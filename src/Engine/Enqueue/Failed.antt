-- ===== src/Engine/Enqueue/Failed.antt =====
-- When EnqueueBatch fails: nothing is left behind.
use quacker.Prelude.{
  ℕ, suc, ◌≡◌, refl, sym, ◌∙◌, ap, ap₂, String, false, List, [], ◌∷◌, Memᴰ, Option, none, some, map,
  ◌⊎◌, inl, inr, mem-map_intro, Bool-cases, Option-cases, subst,
}
use quacker.Store.Model.{Run, Step, Result, ok, err}
use quacker.Store.Queries.{upsert_cron}
use quacker.Store.Enqueue.{Job, Enqueue}
use quacker.Engine.Requests.{TaskDef, StepReq, EnqueueRequest}
use quacker.Engine.Dag.{DagError, validate_dag}
use quacker.Engine.State.{CronEntry, Engine, World, is_in, ensure_queue, norm_queue}
use quacker.Engine.Triggers.{
  register_task, persist_armed_crons, take_pending_crons, take_pending_subs, cron_row, put_task,
}
use quacker.Engine.Build.{BuildError, Built, build_run, build_steps, run_queue}
use quacker.Engine.Build.Rows.{build_run-Launch}
use quacker.Engine.Enqueue.{
  EnqueueError, EnqueueInfo, info_of, create_runs, commit_batch, job_of, prepare, enqueue_batch,
}
use quacker.Engine.Enqueue.Waiters.{drop-add}

-- What an enqueue must not leave behind: the rows of its runs and the waiters for them.
pub record Same (w w' : World) : Type 0 where
  pub runs : w'.db.runs ≡ w.db.runs
  pub steps : w'.db.steps ≡ w.db.steps
  pub keys : w'.db.step_keys ≡ w.db.step_keys
  pub waiters : w'.engine.waiters ≡ w.engine.waiters

Same-refl : (w : World) → Same w w
Same-refl w = record { runs = refl; steps = refl; keys = refl; waiters = refl }

Same-trans : (a b c : World) → Same a b → Same b c → Same a c
Same-trans a b c p q = record {
  runs = q.runs ∙ p.runs;
  steps = q.steps ∙ p.steps;
  keys = q.keys ∙ p.keys;
  waiters = q.waiters ∙ p.waiters;
}

persist_armed_crons-Same :
    (cs : List CronEntry) (w : World) (e : Engine)
    → e.waiters ≡ w.engine.waiters
    → Same w (record { engine = e; db = persist_armed_crons cs w.db })
unfolding persist_armed_crons upsert_cron
persist_armed_crons-Same [] w e h = record { runs = refl; steps = refl; keys = refl; waiters = h }
persist_armed_crons-Same (c ∷ cs) w e h =
    let w1 : World = record w { db = upsert_cron (cron_row 0 c) w.db } in
    let r = persist_armed_crons-Same cs w1 e h in
    record { runs = r.runs; steps = r.steps; keys = r.keys; waiters = h }

register_task-Same : (now : ℕ) (def : TaskDef) (w : World) → Same w (register_task now def w)
unfolding register_task take_pending_crons take_pending_subs
register_task-Same now def w =
    let known : Engine = record w.engine { tasks = put_task def w.engine.tasks } in
    persist_armed_crons-Same (take_pending_crons now def.name known).1 w
      (take_pending_subs def.name (take_pending_crons now def.name known).0) refl

build_steps-Same :
    (run_id : String) (now : ℕ) (req : EnqueueRequest) (ord : ℕ) (srs : List StepReq) (w : World)
    → Same w (build_steps run_id now req ord srs w).0
unfolding build_steps ensure_queue
build_steps-Same run_id now req ord [] w = Same-refl w
build_steps-Same run_id now req ord (sr ∷ srs) w = elim (Option-cases sr.def) [
  | inl e ↦ rw (e, build_steps) (Same-refl w)
  | inr (def, e) ↦
      let w1 = register_task now def w in
      let w2 : World = record w1 { engine = ensure_queue (norm_queue def.queue) w1.engine } in
      let first_one = register_task-Same now def w in
      let later = build_steps-Same run_id now req (suc ord) srs w2 in
      rw (e, build_steps)
        (record {
          runs = later.runs ∙ first_one.runs;
          steps = later.steps ∙ first_one.steps;
          keys = later.keys ∙ first_one.keys;
          waiters = later.waiters ∙ first_one.waiters;
        })
]

build_run-Same :
    (run_id : String) (now : ℕ) (req : EnqueueRequest) (w : World)
    → Same w (build_run run_id now req w).0
unfolding build_run ensure_queue
build_run-Same run_id now req w = split req.steps refl
  where
    checked :
        (sr : StepReq) (srs : List StepReq) (o : Option DagError)
        → req.steps ≡ sr ∷ srs
        → validate_dag (sr ∷ srs) ≡ o
        → Same w (build_run run_id now req w).0
    checked sr srs o k v =
        let w1 : World = record w { engine = ensure_queue (run_queue req sr) w.engine } in
        let built = build_steps-Same run_id now req 0 (sr ∷ srs) w1 in
        let same : Same w (build_steps run_id now req 0 (sr ∷ srs) w1).0 = record {
          runs = built.runs;
          steps = built.steps;
          keys = built.keys;
          waiters = built.waiters;
        } in
        elim (Option-cases o) [
          | inl e ↦ rw (k, build_run, v, e) same
          | inr (x, e) ↦
              rw (k, build_run, v, e)
                (record { runs = refl; steps = refl; keys = refl; waiters = refl })
        ]

    split : (rs : List StepReq) → req.steps ≡ rs → Same w (build_run run_id now req w).0
    split [] k = rw (k, build_run) (Same-refl w)
    split (sr ∷ srs) k = checked sr srs (validate_dag (sr ∷ srs)) k refl

commit_batch-Same :
    (now : ℕ) (js : List Job) (w w' : World) (x : EnqueueError)
    → ((j : Job) → Memᴰ j js → is_in j.run.id w.engine.waiters ≡ false)
    → commit_batch now js w ≡ (w', inl x)
    → Same w w'
unfolding commit_batch
commit_batch-Same now js w w' x fresh h = elim (Bool-cases w.engine.closing) [
  | inl e ↦
      subst (Same w) (ap (λ p. p.0) (rw (commit_batch, e) at h))
        (record { runs = refl; steps = refl; keys = refl; waiters = refl })
  | inr e ↦ created (create_runs 2 now js w.db) refl e
]
  where
    created :
        (r : Result Enqueue) → create_runs 2 now js w.db ≡ r → w.engine.closing ≡ false → Same w w'
    created (ok d) c e =
        let bad : inr d.ids ≡ inl x = ap (λ p. p.1) (rw (commit_batch, e, c) at h) in cc
    created (err y) c e =
        let k = ap (λ p. p.0) (rw (commit_batch, e, c) at h) in
        subst (Same w) k (record {
          runs = refl;
          steps = refl;
          keys = refl;
          waiters = drop-add js w.engine.waiters fresh;
        })

module _ (before_enqueue : EnqueueInfo → Option String) (trace_parent : String → String) where
  -- The requests become jobs of the same ids, in order, and nothing is inserted yet.
  record Prepared (reqs : List (String × Option EnqueueRequest)) (w : World)
      (r : World × (EnqueueError ⊎ List Job)) : Type 0 where
    same : Same w r.0
    ids : (js : List Job) → r.1 ≡ inr js → map (λ j. j.run.id) js ≡ map (λ q. q.0) reqs

  prepare-Prepared :
      (now : ℕ) (reqs : List (String × Option EnqueueRequest)) (w : World)
      → Prepared reqs w (prepare before_enqueue trace_parent now reqs w)
  unfolding prepare
  prepare-Prepared now [] w = record {
    same = Same-refl w;
    ids = λ js e.
        let nothing : List Job = [] in
        let k : nothing ≡ js = cc in ap (map (λ j. j.run.id)) (sym k);
  }
  prepare-Prepared now ((id, none) ∷ reqs) w = record { same = Same-refl w; ids = λ js e. cc }
  prepare-Prepared now ((id, some req) ∷ reqs) w =
      built (prepare-Prepared now reqs (build_run id now req w).0) (build_run id now req w).1 refl
    where
      w1 : World
      w1 = (build_run id now req w).0

      Goal : Type 0
      Goal =
          Prepared ((id, some req) ∷ reqs) w
            (prepare before_enqueue trace_parent now ((id, some req) ∷ reqs) w)

      Later : Type 0
      Later = Prepared reqs w1 (prepare before_enqueue trace_parent now reqs w1)

      drafted :
          Later
          → (run : Run) (steps : List Step) → (build_run id now req w).1 ≡ inr (run, steps)
          → before_enqueue (info_of run) ≡ none
          → (r : EnqueueError ⊎ List Job) → (prepare before_enqueue trace_parent now reqs w1).1 ≡ r
          → Goal
      drafted later run steps b v (inl x) p =
          rw (prepare, b, v, p)
            (record {
              same =
                  Same-trans w w1 (prepare before_enqueue trace_parent now reqs w1).0
                    (build_run-Same id now req w) later.same;
              ids = λ js e. cc;
            })
      drafted later run steps b v (inr js) p =
          rw (prepare, b, v, p)
            (record {
              same =
                  Same-trans w w1 (prepare before_enqueue trace_parent now reqs w1).0
                    (build_run-Same id now req w) later.same;
              ids = λ ks e.
                  let all_jobs : job_of before_enqueue trace_parent req run steps ∷ js ≡ ks = cc in
                  let named = (build_run-Launch id now req w run steps b).id in
                  let rest = later.ids js p in
                  ap (map (λ j. j.run.id)) (sym all_jobs) ∙ ap₂ (λ x xs. x ∷ xs) named rest;
            })

      built : Later → (b : BuildError ⊎ Built) → (build_run id now req w).1 ≡ b → Goal
      built later (inl x) b =
          rw (prepare, b) (record { same = build_run-Same id now req w; ids = λ js e. cc })
      built later (inr (run, steps)) b = elim (Option-cases (before_enqueue (info_of run))) [
        | inl v ↦
            drafted later run steps b v (prepare before_enqueue trace_parent now reqs w1).1 refl
        | inr (x, v) ↦
            rw (prepare, b, v) (record { same = build_run-Same id now req w; ids = λ js e. cc })
      ]

  -- A failed EnqueueBatch leaves nothing behind: if it returns an error, and nobody waited before for a run
  -- of the new ids, then the tables of runs, of steps and of their keys are as before, and so are the
  -- engine's waiters, whichever request, plugin or statement failed.
  pub enqueue_batch-Same :
      (now : ℕ) (reqs : List (String × Option EnqueueRequest)) (w w' : World) (x : EnqueueError)
      → ((id : String) → Memᴰ id (map (λ q. q.0) reqs) → is_in id w.engine.waiters ≡ false)
      → enqueue_batch before_enqueue trace_parent now reqs w ≡ (w', inl x)
      → Same w w'
  unfolding enqueue_batch
  enqueue_batch-Same now [] w w' x fresh h = let bad : inr [] ≡ inl x = ap (λ p. p.1) h in cc
  enqueue_batch-Same now (q ∷ reqs) w w' x fresh h =
      drafted (prepare before_enqueue trace_parent now (q ∷ reqs) w).1 refl
    where
      w1 : World
      w1 = (prepare before_enqueue trace_parent now (q ∷ reqs) w).0

      prepared : Prepared (q ∷ reqs) w (prepare before_enqueue trace_parent now (q ∷ reqs) w)
      prepared = prepare-Prepared now (q ∷ reqs) w

      unwaited :
          (js : List Job)
          → (prepare before_enqueue trace_parent now (q ∷ reqs) w).1 ≡ inr js
          → (j : Job) → Memᴰ j js
          → is_in j.run.id w1.engine.waiters ≡ false
      unwaited js d j m =
          let at_w = fresh j.run.id (
            subst (λ ids. Memᴰ j.run.id ids) (prepared.ids js d)
              (mem-map_intro (λ j. j.run.id) j js m)) in
          ap (is_in j.run.id) prepared.same.waiters ∙ at_w

      drafted :
          (r : EnqueueError ⊎ List Job)
          → (prepare before_enqueue trace_parent now (q ∷ reqs) w).1 ≡ r
          → Same w w'
      drafted (inl y) d = subst (Same w) (ap (λ p. p.0) (rw (enqueue_batch, d) at h)) prepared.same
      drafted (inr js) d =
          Same-trans w w1 w' prepared.same
            (commit_batch-Same now js w1 w' x (unwaited js d) (rw (enqueue_batch, d) at h))
