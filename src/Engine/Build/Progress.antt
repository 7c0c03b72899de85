-- ===== src/Engine/Build/Progress.antt =====
-- A workflow that validateDAG accepted, while it runs.
use quacker.Prelude.{
  ℕ, zero, suc, ◌<◌, ◌≡◌, sym, ◌∙◌, String, inl, inr, List, Memᴰ, eq_iff, arith, subst, Bool-cases,
  any-witness, false, none,
}
use quacker.Store.Model.{Status, Step, Db, ok, OnOk, is, is_iff}
use quacker.Store.Complete.{Completion, CompleteResult, complete_step}
use quacker.Store.Complete.Wakeup.{BelongsTo, complete_step-BlockedWait}
use quacker.Store.Dag.{BlockedWait, HasKeys}
use quacker.Engine.Requests.{StepReq}
use quacker.Engine.Dag.{has_name, validate_dag}
use quacker.Engine.Dag.Correct.{IsWorkflow, validate_dag_iff}

-- The run's rows in the steps table are those of the workflow's steps, whatever their statuses.
pub record Carries (run_id : String) (reqs : List StepReq) (steps : List Step) : Type 0 where
  pub requested :
      (s : Step)
      → Memᴰ s steps
      → s.run_id ≡ run_id
      → (sr : StepReq) × Memᴰ sr reqs × (s.name ≡ sr.name) × (s.depends_on ≡ sr.deps)
  pub present :
      (sr : StepReq)
      → Memᴰ sr reqs
      → (s : Step) × Memᴰ s steps × (s.run_id ≡ run_id) × (s.name ≡ sr.name)

-- A step of the run that is neither waiting nor done.
pub record Open (run_id : String) (steps : List Step) : Type 0 where
  pub step : Step
  pub mem : Memᴰ step steps
  pub home : step.run_id ≡ run_id
  pub unblocked : is Status.blocked step.status ≡ false
  pub unsucceeded : is Status.succeeded step.status ≡ false

module _ (run_id : String) (reqs : List StepReq) (steps : List Step) (w : IsWorkflow reqs)
    (carries : Carries run_id reqs steps) (waiting : BlockedWait steps) where
  below-Open :
      (n : ℕ) (s : Step)
      → Memᴰ s steps
      → s.run_id ≡ run_id
      → s.status ≡ Status.blocked
      → w.rank s.name < n
      → Open run_id steps
  below-Open zero s m home blocked lt = absurd (omega (arith, lt))
  below-Open (suc n) s m home blocked lt =
      let (d, k, undone) = waiting s m blocked in
      let (sr, req, named, deps) = carries.requested s m home in
      let k' : Memᴰ d sr.deps = subst (λ x. Memᴰ d x) deps k in
      let less = w.acyclic sr req d k' in
      let (sr', req', is_dep) = any-witness (has_name d) reqs (w.known sr req d k') in
      let (t, m', home', named') = carries.present sr' req' in
      let name : t.name ≡ d = named' ∙ sym ((eq_iff d sr'.name).0 is_dep) in
      let below : w.rank t.name < n =
        subst (λ x. w.rank x < n) (sym name)
          (let lt' : w.rank sr.name < suc n = subst (λ x. w.rank x < suc n) named lt in
            omega (arith, less, lt')) in
      elim (Bool-cases (is Status.blocked t.status)) [
        | inl e ↦ below-Open n t m' home' ((is_iff Status.blocked t.status).0 e) below
        | inr e ↦ elim (Bool-cases (is Status.succeeded t.status)) [
          | inl f ↦ absurd (
              undone (record {
                step = t;
                mem = m';
                home = home' ∙ sym home;
                named = name;
                succeeded = (is_iff Status.succeeded t.status).0 f;
              }))
          | inr f ↦ record { step = t; mem = m'; home = home'; unblocked = e; unsucceeded = f }
        ]
      ]

-- A completion leaves no workflow stuck: suppose that validateDAG accepts a run's steps, that ids and names
-- are unique, that the completed row carries the given run and name, that every BLOCKED step has a
-- dependency that has not SUCCEEDED, and that CompleteStep succeeds. Then a run that has a BLOCKED step after
-- it, and still has the rows of just its workflow's steps, has a step that is neither BLOCKED nor SUCCEEDED.
pub complete_step-Open :
    (run_id : String) (reqs : List StepReq) (c : Completion) (db db' : Db) (res : CompleteResult)
    (s : Step)
    → validate_dag reqs ≡ none
    → HasKeys db.steps
    → BelongsTo c db.steps
    → BlockedWait db.steps
    → complete_step c db ≡ ok (db', res)
    → Carries run_id reqs db'.steps
    → Memᴰ s db'.steps
    → s.run_id ≡ run_id
    → s.status ≡ Status.blocked
    → Open run_id db'.steps
complete_step-Open run_id reqs c db db' res s accepted keys home waiting done carries m own
      blocked =
    let w = (validate_dag_iff reqs).0 accepted in
    let waits : BlockedWait db'.steps =
      subst (OnOk (λ r. BlockedWait r.0.steps)) done
        (complete_step-BlockedWait c db keys home waiting) in
    below-Open run_id reqs db'.steps w carries waits (suc (w.rank s.name)) s m own blocked
      (omega arith)
