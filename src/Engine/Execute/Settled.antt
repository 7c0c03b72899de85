-- ===== src/Engine/Execute/Settled.antt =====
-- Where an executed step ends up in the steps table.
use quacker.Prelude.{
  ℕ, ◌≡◌, refl, sym, subst, String, Bool, true, false, not, ◌&&◌, List, Memᴰ, none, some, inl, inr,
  Bool-cases, ltb, arith,
}
use quacker.Table.{update, first}
use quacker.Table.Laws.{mem-update, mem-delete}
use quacker.Store.Complete.{CompleteResult}
use quacker.Engine.State.{task_def, is_in}
use quacker.Store.Complete.{
  has_id, in_run, fail_row, is_sibling, cancel_step_row, delete_ephemeral_run, delete_steps,
}
use quacker.Store.Model.{Status, is, Step, Run, Db, Result, ok, err}
use quacker.Store.Lifecycle.{
  retry_step, requeue_paused_step, step_cancelled, is_running_step, can_cancel_step,
}
use quacker.Store.Complete.{final_fail_step, is_run}
use quacker.Engine.Requests.{TaskDef}
use quacker.Engine.State.{World}
use quacker.Engine.Control.{is_run_terminal}
use quacker.Engine.Execute.{
  consume_pause, BodyEnd, settle_failure, retry_executed, record_final_failure, cancel_executed,
  requeue_executed, settle, end_step,
}

-- The step is not RUNNING any more: no row of its id is.
abbrev pub Stopped : String → List Step → Type 0
Stopped id steps = (s : Step) → Memᴰ s steps → is_running_step id s ≡ false

-- An update that moves the running rows of an id off RUNNING stops the step.
update-Stopped :
    (id : String) (q : Step → Bool) (f : Step → Step) (steps : List Step)
    → ((s : Step) → is_running_step id s ≡ true → q s ≡ true)
    → ((s : Step) → q s ≡ true → is Status.running (f s).status ≡ false)
    → Stopped id (update q f steps)
update-Stopped id q f steps hits stops s m =
    let (x, _, e) = mem-update q f s steps m in
    subst (λ y. is_running_step id y ≡ false) (sym e)
      (elim (Bool-cases (q x)) [
        | inl hit ↦ rw hit (let k = stops x hit in ground arith)
        | inr miss ↦ rw miss (elim (Bool-cases (is_running_step id x)) [
          | inl r ↦ let k = hits x r in absurd (ground (arith, k, miss))
          | inr r ↦ r
        ])
      ])

cancel-Stopped : (id : String) (now : ℕ) (db : Db) → Stopped id (step_cancelled id now db).steps
unfolding step_cancelled
cancel-Stopped id now db =
    update-Stopped id (can_cancel_step id) _ db.steps (λ s r. ground arith) (λ s q. refl)

requeue-Stopped : (id : String) (db : Db) → Stopped id (requeue_paused_step id db).steps
unfolding requeue_paused_step
requeue-Stopped id db = update-Stopped id (is_running_step id) _ db.steps (λ s r. r) (λ s q. refl)

retry-Stopped :
    (id msg : String) (next : ℕ) (db : Db) → Stopped id (retry_step id msg next db).steps
unfolding retry_step
retry-Stopped id msg next db =
    update-Stopped id (is_running_step id) _ db.steps (λ s r. r) (λ s q. refl)

-- The database after a transaction: the one before, if it failed.
abbrev db_after : Result (Db × CompleteResult) → Db → Db
db_after (ok r) db = r.0
db_after (err e) db = db

-- A failed step stops, also if it is deleted with its run.
fail-Stopped :
    (step_id run_id msg : String) (dead : Bool) (now : ℕ) (db : Db) (run : Run)
    → first (is_run run_id) db.runs ≡ some run
    → Stopped step_id (db_after (final_fail_step step_id run_id msg dead now db) db).steps
unfolding final_fail_step delete_ephemeral_run delete_steps
fail-Stopped step_id run_id msg dead now db run e =
    rw (e, final_fail_step)
      (elim (Bool-cases run.ephemeral) [
        | inl k ↦ rw k (λ s m. siblings s (mem-delete (in_run run.id) s _ m).0)
        | inr k ↦ rw k siblings
      ])
  where
    failed : List Step
    failed = update (has_id step_id) (fail_row msg now) db.steps

    first_stopped : Stopped step_id failed
    first_stopped =
        update-Stopped step_id (has_id step_id) (fail_row msg now) db.steps (λ s r. ground arith)
          (λ s q. refl)

    siblings : Stopped step_id (update (is_sibling run_id step_id) (cancel_step_row now) failed)
    siblings s m =
        let (x, n, same) =
          mem-update (is_sibling run_id step_id) (cancel_step_row now) s failed m in
        let was = first_stopped x n in
        subst (λ y. is_running_step step_id y ≡ false) (sym same)
          (elim (Bool-cases (is_sibling run_id step_id x)) [
            | inl hit ↦ rw hit (ground arith)
            | inr miss ↦ rw miss was
          ])

abbrev dead_letters : Step → World → Bool
dead_letters st w = elim (task_def st.task w.engine) [ none ↦ false | some def ↦ def.dead_letter ]

record_final_failure-db :
    (st : Step) (error : String) (now : ℕ) (w : World)
    → (record_final_failure st error now w).db
      ≡ db_after (final_fail_step st.id st.run_id error (dead_letters st w) now w.db) w.db
unfolding record_final_failure
record_final_failure-db st error now w =
    split (final_fail_step st.id st.run_id error (dead_letters st w) now w.db) refl
  where
    split :
        (r : Result (Db × CompleteResult))
        → final_fail_step st.id st.run_id error (dead_letters st w) now w.db ≡ r
        → (record_final_failure st error now w).db
          ≡ db_after (final_fail_step st.id st.run_id error (dead_letters st w) now w.db) w.db
    split (ok r) k = rw (k, record_final_failure) refl
    split (err e) k = rw (k, record_final_failure) refl

record_final_failure-Stopped :
    (st : Step) (error : String) (now : ℕ) (w : World) (run : Run)
    → first (is_run st.run_id) w.db.runs ≡ some run
    → Stopped st.id (record_final_failure st error now w).db.steps
record_final_failure-Stopped st error now w run e =
    subst (λ d. Stopped st.id d.steps) (sym (record_final_failure-db st error now w))
      (fail-Stopped st.id st.run_id error (dead_letters st w) now w.db run e)

-- The ends that execute does not record as a success or a suspension.
abbrev pub is_error : BodyEnd → Bool
is_error (BodyEnd.failed error cancelled) = true
is_error (BodyEnd.vetoed error) = true
is_error _ = false

module _ (scale jitter : ℕ → ℕ) where
  settle_failure-Stopped :
      (def : TaskDef) (st : Step) (error : String) (now : ℕ) (w : World) (run : Run)
      → first (is_run st.run_id) w.db.runs ≡ some run
      → w.engine.closing ≡ false
      → Stopped st.id (settle_failure scale jitter def st error now w).db.steps
  unfolding settle_failure cancel_executed retry_executed
  settle_failure-Stopped def st error now w run e on =
      elim (Bool-cases (is_run_terminal st.run_id w.db)) [
        | inl t ↦ simp t (cancel-Stopped st.id now w.db)
        | inr t ↦ elim (Bool-cases (ltb st.attempts st.max_attempts)) [
          | inl k ↦ simp (t, on, k) (retry-Stopped st.id error _ w.db)
          | inr k ↦ simp (t, on, k) (record_final_failure-Stopped st error now w run e)
        ]
      ]

  settle-Stopped :
      (def : TaskDef) (st : Step) (body : BodyEnd) (now : ℕ) (w : World) (run : Run)
      → first (is_run st.run_id) w.db.runs ≡ some run
      → w.engine.closing ≡ false
      → is_error body ≡ true
      → Stopped st.id (settle scale jitter def st body now w).db.steps
  unfolding settle consume_pause cancel_executed requeue_executed record_final_failure
  settle-Stopped def st (BodyEnd.returned out) now w run e on h = cc
  settle-Stopped def st BodyEnd.suspended now w run e on h = cc
  settle-Stopped def st (BodyEnd.vetoed error) now w run e on h =
      let unmarked : World = record w { engine = (consume_pause st.id w.engine).0 } in
      elim (Bool-cases (is_run_terminal st.run_id w.db)) [
        | inl t ↦ simp t (cancel-Stopped st.id now w.db)
        | inr t ↦ simp t (record_final_failure-Stopped st error now unmarked run e)
      ]
  settle-Stopped def st (BodyEnd.failed error cancelled) now w run e on h =
      let unmarked : World = record w { engine = (consume_pause st.id w.engine).0 } in
      elim (Bool-cases
        (is_in st.id w.engine.pause_steps && (cancelled && not (is_run_terminal st.run_id w.db)))) [
          | inl p ↦ simp p (requeue-Stopped st.id w.db)
          | inr p ↦ simp p (settle_failure-Stopped def st error now unmarked run e on)
        ]

-- No claimed step is left behind: when a step's body fails or a hook vetoes it, while the engine is not
-- closing and the step's run is in the store, then no row of the step is RUNNING after execute.
pub end_step-Stopped :
    (scale jitter : ℕ → ℕ) (def : TaskDef) (st : Step) (body : BodyEnd) (now : ℕ) (w : World)
    (run : Run)
    → first (is_run st.run_id) w.db.runs ≡ some run
    → w.engine.closing ≡ false
    → is_error body ≡ true
    → Stopped st.id (end_step scale jitter def st body now w).db.steps
unfolding end_step
end_step-Stopped scale jitter def st body now w run e on h =
    settle-Stopped scale jitter def st body now w run e on h
