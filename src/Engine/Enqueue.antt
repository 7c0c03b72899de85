-- ===== src/Engine/Enqueue.antt =====
-- EnqueueBatch and createRuns of engine.go: requests become runs in one transaction, with a waiter for
-- each. The plugins' BeforeEnqueue and the tracer are parameters; a request comes with the id that newID
-- gives its run, and nil is none. The clock is read once, and no one else writes between the attempts.
pub mod Waiters
pub mod Failed
use quacker.Prelude.{
  ℕ, suc, zero, String, ℤ, pos, negsuc, Bool, true, false, not, ◌||◌, List, [], ◌∷◌, map, Option,
  none, some, str_eq, if◌then◌else◌, ◌⊎◌, inl, inr,
}
use quacker.Store.Model.{Status, RunKind, Run, Step, Db, Error, unique_violation, Result, ok, err}
use quacker.Store.Enqueue.{KeyPolicy, no_policy, ReplacedRun, Job, Enqueue, create_jobs}
use quacker.Engine.Requests.{TaskDef, StepReq, EnqueueRequest}
use quacker.Engine.State.{Engine, World, add, remove, wake_scheduler}
use quacker.Engine.Build.{BuildError, build_run}
use quacker.Engine.Control.{interrupt_local}

pub record EnqueueInfo : Type 0 where
  pub workflow : String
  pub kind : RunKind
  pub queue : String
  pub priority : ℤ

pub data EnqueueError : Type 0 where
  nil_request closed : EnqueueError
  invalid : BuildError → EnqueueError
  vetoed : String → EnqueueError
  store_error : Error → EnqueueError

abbrev pub info_of : Run → EnqueueInfo
info_of run = record {
  workflow = run.workflow;
  kind = run.kind;
  queue = run.queue;
  priority = run.priority;
}

-- A limit that is not positive counts as 0, which applies no strategy.
abbrev pub limit_of : ℤ → ℕ
limit_of (pos n) = n
limit_of (negsuc n) = 0

unfoldable pub policy_of : Run → List StepReq → KeyPolicy
policy_of run [] = no_policy
policy_of run (sr ∷ srs) = elim sr.def [
  | none ↦ no_policy
  | some def ↦ record {
    key = run.concurrency_key;
    limit = limit_of def.key_limit;
    strategy = def.key_strategy;
  }
]

abbrev pub is_violation : Error → Bool
is_violation unique_violation = true
is_violation _ = false

-- createRuns: a key that a concurrent enqueue won is looked up again, with `retries` more attempts.
unfoldable pub create_runs : (retries now : ℕ) → List Job → Db → Result Enqueue
create_runs zero now js db = create_jobs now js db
create_runs (suc retries) now js db =
    let again = create_runs retries now js db in
    elim (create_jobs now js db) [ ok e ↦ ok e | err x ↦ if is_violation x then again else err x ]

unfoldable pub add_waiters : List Job → List String → List String
add_waiters [] ws = ws
add_waiters (j ∷ js) ws = add_waiters js (add j.run.id ws)

unfoldable pub drop_waiters : List Job → List String → List String
drop_waiters [] ws = ws
drop_waiters (j ∷ js) ws = drop_waiters js (remove j.run.id ws)

-- A reused run keeps its id, so that its handle is the waiter of that run.
unfoldable pub rebind : List String → List Job → List String → List String
rebind (id ∷ ids) (j ∷ js) ws =
    rebind ids js (if str_eq id j.run.id then ws else add id (remove j.run.id ws))
rebind [] js ws = ws
rebind ids [] ws = ws

unfoldable pub has_inserted : List String → List Job → Bool
has_inserted (id ∷ ids) (j ∷ js) = str_eq id j.run.id || has_inserted ids js
has_inserted [] js = false
has_inserted ids [] = false

unfoldable pub interrupt_replaced : ℕ → List ReplacedRun → Engine → Engine
unfolding interrupt_local
interrupt_replaced now [] e = e
interrupt_replaced now (r ∷ rs) e =
    interrupt_replaced now rs (interrupt_local r.run_id Status.running r.running_steps now e)

abbrev has_replaced : List ReplacedRun → Bool
has_replaced [] = false
has_replaced (r ∷ rs) = true

-- What follows the transaction.
unfoldable pub settle_batch : ℕ → List Job → Enqueue → Engine → Engine
unfolding interrupt_replaced wake_scheduler
settle_batch now js d e =
    let bound = record e { waiters = rebind d.ids js e.waiters } in
    let interrupted = interrupt_replaced now d.replaced bound in
    if has_inserted d.ids js || has_replaced d.replaced
    then wake_scheduler interrupted
    else interrupted

-- From the registration of the waiters on; a handle is given by the id of the run it waits for.
unfoldable pub commit_batch : ℕ → List Job → World → World × (EnqueueError ⊎ List String)
unfolding settle_batch
commit_batch now js w =
    let waiting = record w.engine { waiters = add_waiters js w.engine.waiters } in
    let dropped = record waiting { waiters = drop_waiters js waiting.waiters } in
    if w.engine.closing then (w, inl EnqueueError.closed) else elim (create_runs 2 now js w.db) [
      | err x ↦ (record w { engine = dropped }, inl (EnqueueError.store_error x))
      | ok d ↦ (record { engine = settle_batch now js d waiting; db = d.db }, inr d.ids)
    ]

module _ (before_enqueue : EnqueueInfo → Option String) (trace_parent : String → String) where
  abbrev pub job_of : EnqueueRequest → Run → List Step → Job
  job_of req run steps = record {
    run = record run { trace_parent = trace_parent run.id };
    steps = steps;
    conflict = req.conflict;
    policy = policy_of run req.steps;
  }

  -- The loop over the requests.
  unfoldable pub prepare :
      ℕ → List (String × Option EnqueueRequest) → World → World × (EnqueueError ⊎ List Job)
  prepare now [] w = (w, inr [])
  prepare now ((id, none) ∷ reqs) w = (w, inl EnqueueError.nil_request)
  prepare now ((id, some req) ∷ reqs) w =
      let (w1, built) = build_run id now req w in
      elim built [
        | inl x ↦ (w1, inl (EnqueueError.invalid x))
        | inr (run, steps) ↦ elim (before_enqueue (info_of run)) [
          | some x ↦ (w1, inl (EnqueueError.vetoed x))
          | none ↦
              let (w2, r) = prepare now reqs w1 in
              (w2, elim r [ inl x ↦ inl x | inr js ↦ inr (job_of req run steps ∷ js) ])
        ]
      ]

  -- EnqueueBatch
  unfoldable pub enqueue_batch :
      ℕ → List (String × Option EnqueueRequest) → World → World × (EnqueueError ⊎ List String)
  unfolding prepare commit_batch
  enqueue_batch now [] w = (w, inr [])
  enqueue_batch now (r ∷ reqs) w =
      let (w1, drafts) = prepare now (r ∷ reqs) w in
      elim drafts [ inl x ↦ (w1, inl x) | inr js ↦ commit_batch now js w1 ]
