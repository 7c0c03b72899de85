-- ===== src/Store/Complete/Terminal.antt =====
-- When a run ends, and what a completion reports of it.
use quacker.Prelude.{
  ℕ, ◌≡◌, refl, sym, ◌∙◌, ap, String, true, false, ◌&&◌, inl, inr, Bool-cases, Option-cases,
  &&-true, &&-intro, str_eq, eq_iff, arith, List, Memᴰ, subst, any, any-mem, any-witness, ◌==◌,
}
use quacker.Table.{update, count, first}
use quacker.Table.Laws.{
  count_cases, count_unique, count-update_same, mem-update, mem-delete, mem-first, mem-update_intro,
}
use quacker.Store.Model.{Status, is, is_active, is_terminal, Bytes, Run, Step, Db, OnOk}
use quacker.Store.Complete.{
  Completion, CompleteResult, complete_step, complete_step_tx, complete_live, complete_dead,
  complete_dag, complete_single, can_complete, succeed_row, unblock_ready, delete_if_ephemeral,
  delete_ephemeral_run, in_run, step_count, is_run, run_outcome, is_live_run, end_run,
}

-- The run's row is gone or terminal, and the run has no active step.
pub record HasEnded (db : Db) (run_id : String) : Type 0 where
  pub row : (r : Run) → Memᴰ r db.runs → r.id ≡ run_id → is_terminal r.status ≡ true
  pub idle : (s : Step) → Memᴰ s db.steps → s.run_id ≡ run_id → is_active s.status ≡ false

-- What a completion reports about its run.
abbrev pub Reports : Completion → Db × CompleteResult → Type 0
Reports c (db, r) =
    (r.run_terminal ≡ true → HasEnded db c.run_id)
    × (r.step_done ≡ true
        → r.run_terminal ≡ false
        → (s : Step) × Memᴰ s db.steps × (s.run_id ≡ c.run_id) × (is_active s.status ≡ true))

-- The guarded UPDATE that ends a run leaves only terminal rows under its id.
end_run_terminal :
    (id : String) (status : Status) (output : Bytes) (error : String) (now : ℕ) (runs : List Run)
    → is_terminal status ≡ true
    → (r : Run) → Memᴰ r (update (is_live_run id) (end_run status output error now) runs)
    → r.id ≡ id
    → is_terminal r.status ≡ true
end_run_terminal id status output error now runs t r m e =
    let (x, n, k) = mem-update (is_live_run id) (end_run status output error now) r runs m in
    elim (Bool-cases (is_live_run id x)) [
      | inl live ↦ let same : r ≡ end_run status output error now x = rw live at k in rw same t
      | inr dead ↦
          let same : r ≡ x = rw dead at k in
          let named : str_eq x.id id ≡ true = (eq_iff _ _).1 (ap (λ z. z.id) (sym same) ∙ e) in
          rw same (ground arith)
    ]

delete_if_ephemeral-HasEnded :
    (run : Run) (db : Db) → HasEnded db run.id → HasEnded (delete_if_ephemeral run db) run.id
unfolding delete_ephemeral_run
delete_if_ephemeral-HasEnded run db h = elim (Bool-cases run.ephemeral) [
  | inl e ↦ rw e (record {
    row = λ r m same. let (n, _) = mem-delete (is_run run.id) r db.runs m in h.row r n same;
    idle = λ s m same. let (n, _) = mem-delete (in_run run.id) s db.steps m in h.idle s n same;
  })
  | inr e ↦ rw e h
]

complete_dag-Reports :
    (run : Run) (c : Completion) (db : Db) → run.id ≡ c.run_id → Reports c (complete_dag run c db)
unfolding complete_dag run_outcome
complete_dag-Reports run c db same =
    let steps = (unblock_ready run.id c.name c.now db.steps).0 in
    elim (Bool-cases (any (λ s. in_run run.id s && is_active s.status) steps)) [
      | inl e ↦
          let (s, m, h) = any-witness (λ s. in_run run.id s && is_active s.status) steps e in
          rw e (
            λ bad. absurd (ground arith),
            λ _ _. (s, m, (eq_iff _ _).0 (&&-true _ _ h).0 ∙ same, (&&-true _ _ h).1),
          )
      | inr e ↦ rw e (
        λ _. subst (HasEnded _) same (
            delete_if_ephemeral-HasEnded run _ (record {
              row = end_run_terminal run.id _ _ _ c.now db.runs (outcome_terminal run.id steps);
              idle = λ s m home. idle_of steps e s m home;
            })),
        λ _ bad. absurd (ground arith),
      )
    ]
  where
    outcome_terminal :
        (id : String) (steps : List Step) → is_terminal (run_outcome id steps).0 ≡ true
    outcome_terminal id steps =
        elim (Option-cases (first (λ s. in_run id s && is Status.failed s.status) steps)) [
          | inl e ↦ rw (e, run_outcome) refl
          | inr (s, e) ↦ rw (e, run_outcome) refl
        ]

    idle_of :
        (steps : List Step)
        → any (λ s. in_run run.id s && is_active s.status) steps ≡ false
        → (s : Step) → Memᴰ s steps
        → s.run_id ≡ run.id
        → is_active s.status ≡ false
    idle_of steps none_active s m home = elim (Bool-cases (is_active s.status)) [
      | inl act ↦
          let found =
            any-mem (λ s. in_run run.id s && is_active s.status) steps s m
              (&&-intro _ _ ((eq_iff _ _).1 home) act) in
          absurd (ground arith)
      | inr idle ↦ idle
    ]

-- A run whose one row has just succeeded is idle.
pub single_idle :
    (c : Completion) (steps : List Step)
    → count (in_run c.run_id) steps ≡ 1
    → ((s : Step) → Memᴰ s steps → s.id ≡ c.step_id → s.run_id ≡ c.run_id)
    → (count (can_complete c.step_id) steps == 0) ≡ false
    → (s : Step) → Memᴰ s (update (can_complete c.step_id) (succeed_row c.output c.now) steps)
    → s.run_id ≡ c.run_id
    → is_active s.status ≡ false
single_idle c steps one home hit s m same = elim (count_cases (can_complete c.step_id) steps) [
  | inl z ↦ absurd (ground arith)
  | inr (x, n, done) ↦
      let after = update (can_complete c.step_id) (succeed_row c.output c.now) steps in
      let y = succeed_row c.output c.now x in
      let my : Memᴰ y after =
        rw done at
          (mem-update_intro (can_complete c.step_id) (succeed_row c.output c.now) x steps n) in
      let is_home : str_eq x.run_id c.run_id ≡ true =
        (eq_iff _ _).1 (home x n ((eq_iff _ _).0 (&&-true _ _ done).0)) in
      let still_one : count (in_run c.run_id) after ≡ 1 =
        count-update_same (in_run c.run_id) (can_complete c.step_id) (succeed_row c.output c.now)
          steps (λ _ _. refl)
        ∙ one in
      let is_y : s ≡ y =
        count_unique (in_run c.run_id) s y after (omega (arith, still_one)) m my
          ((eq_iff _ _).1 same) is_home in
      ap (λ r. is_active r.status) is_y
]

complete_live-Reports :
    (n : ℕ) (run : Run) (c : Completion) (db : Db)
    → run.id ≡ c.run_id
    → n ≡ count (in_run c.run_id) db.steps
    → ((s : Step) → Memᴰ s db.steps → s.id ≡ c.step_id → s.run_id ≡ c.run_id)
    → Reports c (complete_live n run c db)
unfolding complete_live complete_single
complete_live-Reports n run c db same counted home =
    elim (Bool-cases (count (can_complete c.step_id) db.steps == 0)) [
      | inl e ↦ rw e (λ bad. absurd (ground arith), λ bad. absurd (ground arith))
      | inr e ↦ elim (Bool-cases (n == 1)) [
        | inl one ↦
            rw (e, one)
              (
                λ _. subst (HasEnded _) same (
                    delete_if_ephemeral-HasEnded run _ (record {
                      row = end_run_terminal run.id _ _ _ c.now db.runs refl;
                      idle = λ s m h. single_idle c db.steps (ground arith) home e s m (h ∙ same);
                    })),
                λ _ bad. absurd (ground arith),
              )
        | inr many ↦ rw (e, many) (complete_dag-Reports run c _ same)
      ]
    ]

-- CompleteStep reports its run's end exactly: if the completed step belongs to the named run, then a
-- result with RunTerminal leaves every row of the run terminal and none of its steps active, and a
-- result with StepDone but not RunTerminal leaves the run an active step.
pub complete_step-Reports :
    (c : Completion) (db : Db)
    → ((s : Step) → Memᴰ s db.steps → s.id ≡ c.step_id → s.run_id ≡ c.run_id)
    → OnOk (Reports c) (complete_step c db)
unfolding complete_step complete_step_tx complete_dead step_count
complete_step-Reports c db home = elim (Option-cases (first (is_run c.run_id) db.runs)) [
  | inl e ↦ rw (e, complete_step_tx) tt
  | inr (run, e) ↦
      let same = (eq_iff run.id c.run_id).0 (mem-first (is_run c.run_id) run db.runs e).1 in
      elim (Bool-cases (is_terminal run.status)) [
        | inl t ↦
            rw (e, complete_step_tx, t) (λ bad. absurd (ground arith), λ bad. absurd (ground arith))
        | inr t ↦
            rw (e, complete_step_tx, t)
              (complete_live-Reports (count (in_run c.run_id) db.steps) run c db same refl home)
      ]
]
