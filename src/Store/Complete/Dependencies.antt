-- ===== src/Store/Complete/Dependencies.antt =====
-- The dependency promise of runs when steps complete and fail.
use quacker.Prelude.{
  ℕ, ◌≡◌, ◌≢◌, refl, ap, String, Bool, true, ◌&&◌, inl, inr, Bool-cases, Option-cases, str_eq,
  eq_iff, arith, List, [], ◌∷◌, Memᴰ, all, any, ◌==◌,
}
use quacker.Table.{update, delete, count, first}
use quacker.Store.Model.{Status, is_active, is_terminal, Run, Step, Db, OnOk, OnOk-bind}
use quacker.Store.Dag.{is_launched, HasKeys}
use quacker.Store.Dag.Keys.{IsDag, HasKeys-update, HasKeys-delete}
use quacker.Store.Dag.Evolution.{
  update-Evolves, Launches, Launches-refl, DepsDone-evolve, DepsDone-delete,
}
use quacker.Store.Complete.{
  Completion, complete_step, complete_step_tx, complete_live, complete_dead, complete_dag,
  complete_single, can_complete, succeed_row, cancel_step_row, unblock_ready, unblock_each,
  is_blocked_row, queue_step, delete_if_ephemeral, delete_ephemeral_run, in_run, has_succeeded,
  final_fail_step, has_id, fail_row, is_sibling, step_count, is_run, complete_steps, complete_each,
}
use quacker.Store.Complete.Unblock.{unblock_ready-Advanced}

unblock_each-HasKeys :
    (before : List Step) (run_id : String) (now : ℕ) (bs cur : List Step)
    → HasKeys cur
    → HasKeys (unblock_each before run_id now bs cur).0
unfolding unblock_each
unblock_each-HasKeys before run_id now [] cur keys = keys
unblock_each-HasKeys before run_id now (b ∷ bs) cur keys =
    elim (Bool-cases (all (has_succeeded before run_id) b.depends_on)) [
      | inl ready ↦ rw ready (
          unblock_each-HasKeys before run_id now bs _ (
            HasKeys-update (is_blocked_row b.id) (queue_step now) cur (λ _ _. refl) (λ _ _. refl)
              (λ _ _. refl) keys))
      | inr not_ready ↦ rw not_ready (unblock_each-HasKeys before run_id now bs cur keys)
    ]

unblock_ready-IsDag :
    (steps : List Step) (run_id name : String) (now : ℕ)
    → IsDag steps
    → IsDag (unblock_ready run_id name now steps).0
unblock_ready-IsDag steps run_id name now dag = record {
  keys = unfold unblock_ready in unblock_each-HasKeys steps run_id now _ steps dag.keys;
  promise = (unblock_ready-Advanced steps dag.keys run_id now name dag.promise).promise;
}

-- An update that keeps what a step is, and its launch, keeps the promise.
pub update-IsDag :
    (q : Step → Bool) (f : Step → Step) (xs : List Step)
    → ((x : Step) → Memᴰ x xs → q x ≡ true → Launches xs x (f x))
    → IsDag xs
    → ((x : Step) → q x ≡ true → (f x).id ≡ x.id)
    → ((x : Step) → q x ≡ true → (f x).run_id ≡ x.run_id)
    → ((x : Step) → q x ≡ true → (f x).name ≡ x.name)
    → IsDag (update q f xs)
update-IsDag q f xs step dag a b c = record {
  keys = HasKeys-update q f xs a b c dag.keys;
  promise =
      DepsDone-evolve (update-Evolves (Launches xs) q f xs (λ x _ _. Launches-refl xs x) step)
        dag.promise;
}

succeed-IsDag :
    (c : Completion) (steps : List Step)
    → IsDag steps
    → IsDag (update (can_complete c.step_id) (succeed_row c.output c.now) steps)
succeed-IsDag c steps dag =
    update-IsDag (can_complete c.step_id) (succeed_row c.output c.now) steps
      (λ x m hit. record {
        keeps = record {
          id = refl;
          run_id = refl;
          name = refl;
          depends_on = refl;
          succeeded = λ e. refl;
        };
        launch = λ _. inl (ground arith);
      })
      dag (λ _ _. refl) (λ _ _. refl) (λ _ _. refl)

-- Cancelling rows that have not succeeded keeps the promise.
pub cancel-IsDag :
    (q : Step → Bool) (now : ℕ) (steps : List Step)
    → ((x : Step) → q x ≡ true → x.status ≢ Status.succeeded)
    → IsDag steps
    → IsDag (update q (cancel_step_row now) steps)
cancel-IsDag q now steps live dag =
    update-IsDag q (cancel_step_row now) steps
      (λ x m hit. record {
        keeps = record {
          id = refl;
          run_id = refl;
          name = refl;
          depends_on = refl;
          succeeded = λ e. absurd (live x hit e);
        };
        launch = λ e. absurd (ground arith);
      })
      dag (λ _ _. refl) (λ _ _. refl) (λ _ _. refl)

pub delete_run-IsDag :
    (run_id : String) (steps : List Step) → IsDag steps → IsDag (delete (in_run run_id) steps)
delete_run-IsDag run_id steps dag = record {
  keys = HasKeys-delete (in_run run_id) steps dag.keys;
  promise =
      DepsDone-delete (in_run run_id) steps (λ s t e. ap (λ n. str_eq n run_id) e) dag.promise;
}

pub delete_if_ephemeral-IsDag :
    (run : Run) (db : Db) → IsDag db.steps → IsDag (delete_if_ephemeral run db).steps
unfolding delete_ephemeral_run
delete_if_ephemeral-IsDag run db dag = elim (Bool-cases run.ephemeral) [
  | inl e ↦ rw e (delete_run-IsDag run.id db.steps dag)
  | inr e ↦ rw e dag
]

complete_dead-IsDag :
    (c : Completion) (db : Db) → IsDag db.steps → IsDag (complete_dead c db).0.steps
unfolding complete_dead
complete_dead-IsDag c db dag =
    cancel-IsDag (can_complete c.step_id) c.now db.steps (λ x hit e. ground arith) dag

complete_dag-IsDag :
    (run : Run) (c : Completion) (db : Db) → IsDag db.steps → IsDag (complete_dag run c db).0.steps
unfolding complete_dag
complete_dag-IsDag run c db dag =
    let after = unblock_ready-IsDag db.steps run.id c.name c.now dag in
    let steps = (unblock_ready run.id c.name c.now db.steps).0 in
    elim (Bool-cases (any (λ s. in_run run.id s && is_active s.status) steps)) [
      | inl e ↦ rw e after
      | inr e ↦ rw e (delete_if_ephemeral-IsDag run _ after)
    ]

complete_live-IsDag :
    (n : ℕ) (run : Run) (c : Completion) (db : Db)
    → IsDag db.steps
    → IsDag (complete_live n run c db).0.steps
unfolding complete_live complete_single
complete_live-IsDag n run c db dag =
    let done = succeed-IsDag c db.steps dag in
    elim (Bool-cases (count (can_complete c.step_id) db.steps == 0)) [
      | inl e ↦ rw e dag
      | inr e ↦ elim (Bool-cases (n == 1)) [
        | inl one ↦ rw (e, one) (delete_if_ephemeral-IsDag run _ done)
        | inr many ↦ rw (e, many) (complete_dag-IsDag run c _ done)
      ]
    ]

pub complete_step_tx-IsDag :
    (n : ℕ) (c : Completion) (db : Db)
    → IsDag db.steps
    → OnOk (λ r. IsDag r.0.steps) (complete_step_tx n c db)
unfolding complete_step_tx
complete_step_tx-IsDag n c db dag = elim (Option-cases (first (is_run c.run_id) db.runs)) [
  | inl e ↦ rw (e, complete_step_tx) tt
  | inr (run, e) ↦ elim (Bool-cases (is_terminal run.status)) [
    | inl t ↦ rw (e, complete_step_tx, t) (complete_dead-IsDag c db dag)
    | inr t ↦ rw (e, complete_step_tx, t) (complete_live-IsDag n run c db dag)
  ]
]

complete_each-IsDag :
    (start : Db) (cs : List Completion) (db : Db)
    → IsDag db.steps
    → OnOk (λ r. IsDag r.0.steps) (complete_each start cs db)
unfolding complete_each
complete_each-IsDag start [] db dag = dag
complete_each-IsDag start (c ∷ cs) db dag =
    OnOk-bind (λ r. IsDag r.0.steps) (λ r. IsDag r.0.steps)
      (complete_step_tx (step_count start c.run_id) c db) _
      (complete_step_tx-IsDag (step_count start c.run_id) c db dag)
      (λ r h.
        OnOk-bind (λ rest. IsDag rest.0.steps) (λ rest. IsDag rest.0.steps)
          (complete_each start cs r.0) _ (complete_each-IsDag start cs r.0 h) (λ rest k. k))

-- Recording step successes, one by one or as a batch, keeps the dependency promise of every run: if
-- step ids, and step names within a run, are unique and every step that has been queued has all of its
-- dependencies SUCCEEDED, then all of this holds after CompleteStep and after CompleteSteps, whatever
-- they return, unless they fail.
pub complete-IsDag :
    (c : Completion) (cs : List Completion) (db : Db)
    → IsDag db.steps
    → OnOk (λ r. IsDag r.0.steps) (complete_step c db)
      × OnOk (λ r. IsDag r.0.steps) (complete_steps cs db)
unfolding complete_step complete_steps
complete-IsDag c cs db dag =
    (complete_step_tx-IsDag (step_count db c.run_id) c db dag, complete_each-IsDag db cs db dag)

-- Failing a step keeps the dependency promise, if the step has been queued and has not SUCCEEDED.
pub final_fail_step-IsDag :
    (step_id run_id msg : String) (dead_letter : Bool) (now : ℕ) (db : Db)
    → ((s : Step)
        → Memᴰ s db.steps
        → s.id ≡ step_id
        → (is_launched s.status ≡ true) × (s.status ≢ Status.succeeded))
    → IsDag db.steps
    → OnOk (λ r. IsDag r.0.steps) (final_fail_step step_id run_id msg dead_letter now db)
unfolding final_fail_step
final_fail_step-IsDag step_id run_id msg dead_letter now db failing dag =
    elim (Option-cases (first (is_run run_id) db.runs)) [
      | inl e ↦ rw (e, final_fail_step) tt
      | inr (run, e) ↦
          rw (e, final_fail_step)
            (delete_if_ephemeral-IsDag run _ (
              cancel-IsDag (is_sibling run_id step_id) now
                (update (has_id step_id) (fail_row msg now) db.steps) (λ x hit s. ground arith)
                failed))
    ]
  where
    failed : IsDag (update (has_id step_id) (fail_row msg now) db.steps)
    failed =
        update-IsDag (has_id step_id) (fail_row msg now) db.steps
          (λ x m hit.
            let (was, live) = failing x m ((eq_iff _ _).0 hit) in
            record {
              keeps = record {
                id = refl;
                run_id = refl;
                name = refl;
                depends_on = refl;
                succeeded = λ s. absurd (live s);
              };
              launch = λ _. inl was;
            })
          dag (λ _ _. refl) (λ _ _. refl) (λ _ _. refl)
