-- ===== src/Views.antt =====
-- The statuses that the DAG views show for a group of runs or steps (runtree.go, dag.go).
use quacker.Prelude.{
  ◌≡◌, refl, sym, ◌∙◌, ap, Bool, true, false, ◌&&◌, List, [], ◌∷◌, Option, none, some,
  if◌then◌else◌, inl, inr, Bool-cases,
}
use quacker.Store.Model.{Status, is, is_active}

-- The statuses of work that has not ended.
abbrev pub is_in_flight : Status → Bool
is_in_flight Status.paused = true
is_in_flight s = is_active s

-- The loop of aggregateRunStatus
unfoldable pub run_loop : Status → List Status → Status
run_loop status [] = status
run_loop status (s ∷ ss) =
    let cancelled = run_loop Status.cancelled ss in
    let interrupted =
      run_loop (if is Status.cancelled status then status else Status.interrupted) ss in
    let running = run_loop (if is Status.succeeded status then Status.running else status) ss in
    let same = run_loop status ss in
    if is Status.failed s
    then Status.failed
    else if is Status.cancelled s
    then cancelled
    else if is Status.interrupted s
    then interrupted
    else if is_in_flight s
    then running
    else same

-- aggregateRunStatus
unfoldable pub aggregate_run_status : List Status → Status
unfolding run_loop
aggregate_run_status ss = run_loop Status.succeeded ss

-- The loop of aggregateStepStatus, and what follows it
unfoldable pub step_loop : Status → Bool → List Status → Status
step_loop status inflight [] =
    if is Status.succeeded status && inflight then Status.running else status
step_loop status inflight (s ∷ ss) =
    let cancelled = step_loop Status.cancelled inflight ss in
    let interrupted =
      step_loop (if is Status.cancelled status then status else Status.interrupted) inflight ss in
    let running = step_loop status true ss in
    let same = step_loop status inflight ss in
    if is Status.failed s
    then Status.failed
    else if is Status.cancelled s
    then cancelled
    else if is Status.interrupted s
    then interrupted
    else if is_in_flight s
    then running
    else same

-- aggregateStepStatus; none is the empty text.
unfoldable pub aggregate_step_status : List Status → Option Status
unfolding step_loop
aggregate_step_status [] = none
aggregate_step_status (s ∷ ss) = some (step_loop Status.succeeded false (s ∷ ss))

-- What the run loop would hold where the step loop stands.
abbrev shown : Status → Bool → Status
shown status inflight = if is Status.succeeded status && inflight then Status.running else status

shown-cancelled :
    (status : Status) (inflight : Bool)
    → (if is Status.cancelled (shown status inflight)
        then shown status inflight
        else Status.interrupted)
      ≡ shown (if is Status.cancelled status then status else Status.interrupted) inflight
shown-cancelled Status.succeeded true = refl
shown-cancelled Status.succeeded false = refl
shown-cancelled Status.queued inflight = refl
shown-cancelled Status.running inflight = refl
shown-cancelled Status.blocked inflight = refl
shown-cancelled Status.suspended inflight = refl
shown-cancelled Status.paused inflight = refl
shown-cancelled Status.failed inflight = refl
shown-cancelled Status.cancelled inflight = refl
shown-cancelled Status.interrupted inflight = refl

shown-running :
    (status : Status) (inflight : Bool)
    → (if is Status.succeeded (shown status inflight)
        then Status.running
        else shown status inflight)
      ≡ shown status true
shown-running status inflight = elim (Bool-cases (is Status.succeeded status)) [
  | inl e ↦ elim (Bool-cases inflight) [ inl k ↦ rw (e, k) refl | inr k ↦ rw (e, k) (rw e refl) ]
  | inr e ↦ rw e (rw e refl)
]

run_loop-shown :
    (ss : List Status) (status : Status) (inflight : Bool)
    → run_loop (shown status inflight) ss ≡ step_loop status inflight ss
unfolding run_loop step_loop
run_loop-shown [] status inflight = refl
run_loop-shown (Status.failed ∷ ss) status inflight = refl
run_loop-shown (Status.cancelled ∷ ss) status inflight = run_loop-shown ss Status.cancelled inflight
run_loop-shown (Status.interrupted ∷ ss) status inflight =
    let kept = if is Status.cancelled status then status else Status.interrupted in
    ap (λ x. run_loop x ss) (shown-cancelled status inflight) ∙ run_loop-shown ss kept inflight
run_loop-shown (Status.succeeded ∷ ss) status inflight = run_loop-shown ss status inflight
run_loop-shown (Status.queued ∷ ss) status inflight =
    ap (λ x. run_loop x ss) (shown-running status inflight) ∙ run_loop-shown ss status true
run_loop-shown (Status.running ∷ ss) status inflight =
    ap (λ x. run_loop x ss) (shown-running status inflight) ∙ run_loop-shown ss status true
run_loop-shown (Status.blocked ∷ ss) status inflight =
    ap (λ x. run_loop x ss) (shown-running status inflight) ∙ run_loop-shown ss status true
run_loop-shown (Status.suspended ∷ ss) status inflight =
    ap (λ x. run_loop x ss) (shown-running status inflight) ∙ run_loop-shown ss status true
run_loop-shown (Status.paused ∷ ss) status inflight =
    ap (λ x. run_loop x ss) (shown-running status inflight) ∙ run_loop-shown ss status true

-- The two summaries agree: on a group that is not empty, aggregateStepStatus shows the status that
-- aggregateRunStatus shows for runs of the same statuses.
pub aggregate_step_status_run :
    (s : Status) (ss : List Status)
    → aggregate_step_status (s ∷ ss) ≡ some (aggregate_run_status (s ∷ ss))
unfolding aggregate_step_status aggregate_run_status
aggregate_step_status_run s ss = ap some (sym (run_loop-shown (s ∷ ss) Status.succeeded false))
