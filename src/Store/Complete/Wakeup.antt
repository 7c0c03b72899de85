-- ===== src/Store/Complete/Wakeup.antt =====
-- The BLOCKED steps that a completion leaves, and what they wait for.
use quacker.Prelude.{
  ℕ, ◌≡◌, ◌≢◌, refl, sym, ◌∙◌, ap, String, true, false, ◌&&◌, ◌⊎◌, inl, inr, Bool-cases,
  Option-cases, &&-true, &&-intro, str_eq, eq_iff, arith, List, [], ◌∷◌, Memᴰ, all, any, any-mem,
  ◌==◌, mem-cons_cases, all_witness,
}
use quacker.Table.{update, count, first, select}
use quacker.Table.Laws.{mem-update, mem-select_intro, mem-first}
use quacker.Store.Model.{Status, is, is_iff, is_active, is_terminal, Run, Step, Db, OnOk}
use quacker.Store.Dag.{Done, BlockedWait, HasKeys}
use quacker.Store.Dag.Keys.{HasKeys-update}
use quacker.Store.Dag.Waiting.{
  NoneSettles, Done-back, BlockedWait-back, update-NoneSettles, delete-NoneSettles,
}
use quacker.Store.Complete.{
  Completion, complete_step, complete_step_tx, complete_live, complete_dead, complete_dag,
  complete_single, can_complete, succeed_row, cancel_step_row, unblock_ready, unblock_each,
  is_blocked_row, is_blocked_dependent, queue_step, delete_if_ephemeral, delete_ephemeral_run,
  in_run, has_succeeded, step_count, is_run,
}
use quacker.Store.Complete.Unblock.{has_succeeded-Done, Done-has_succeeded}
use quacker.Store.Complete.Terminal.{single_idle}

-- A row that `unblock_each` did not queue was there before.
unblock_each_back :
    (before : List Step) (run_id : String) (now : ℕ) (bs cur : List Step)
    → NoneSettles cur (unblock_each before run_id now bs cur).0
unfolding unblock_each
unblock_each_back before run_id now [] cur y m settled = m
unblock_each_back before run_id now (b ∷ bs) cur y m settled =
    elim (Bool-cases (all (has_succeeded before run_id) b.depends_on)) [
      | inl ready ↦
          update-NoneSettles (is_blocked_row b.id) (queue_step now) cur (λ x hit bad. ground arith)
            y (unblock_each_back before run_id now bs _ y (rw ready at m) settled) settled
      | inr waits ↦ unblock_each_back before run_id now bs cur y (rw waits at m) settled
    ]

-- No row with the id is BLOCKED.
abbrev NoneBlocked : String → List Step → Type 0
NoneBlocked id steps = (y : Step) → Memᴰ y steps → y.id ≡ id → y.status ≢ Status.blocked

unblock_each-NoneBlocked :
    (before : List Step) (run_id : String) (now : ℕ) (id : String) (bs cur : List Step)
    → NoneBlocked id cur
    → NoneBlocked id (unblock_each before run_id now bs cur).0
unblock_each-NoneBlocked before run_id now id bs cur h y m e blocked =
    h y (unblock_each_back before run_id now bs cur y m (inl blocked)) e blocked

-- Every ready step of the list is queued.
unblock_each_queues :
    (before : List Step) (run_id : String) (now : ℕ) (s : Step) (bs cur : List Step)
    → Memᴰ s bs
    → all (has_succeeded before run_id) s.depends_on ≡ true
    → NoneBlocked s.id (unblock_each before run_id now bs cur).0
unfolding unblock_each
unblock_each_queues before run_id now s [] cur m ready = elim m [ ]
unblock_each_queues before run_id now s (b ∷ bs) cur m ready = elim (mem-cons_cases m) [
  | inl same ↦ rw ((ap (λ x. all (has_succeeded before run_id) x.depends_on) (sym same) ∙ ready)) (
      unblock_each-NoneBlocked before run_id now s.id bs
        (update (is_blocked_row b.id) (queue_step now) cur)
        (λ y n e blocked.
          let (x, o, k) = mem-update (is_blocked_row b.id) (queue_step now) y cur n in
          elim (Bool-cases (is_blocked_row b.id x)) [
            | inl hit ↦
                let q : y ≡ queue_step now x = rw hit at k in
                let st : Status.queued ≡ Status.blocked = ap (λ z. z.status) (sym q) ∙ blocked in cc
            | inr miss ↦
                let q : y ≡ x = rw miss at k in
                let named : str_eq x.id b.id ≡ true =
                  (eq_iff _ _).1 (ap (λ z. z.id) (sym q) ∙ e ∙ ap (λ z. z.id) same) in
                let is_blocked : is Status.blocked x.status ≡ true =
                  (is_iff Status.blocked x.status).1 (ap (λ z. z.status) (sym q) ∙ blocked) in
                absurd (ground arith)
          ]))
  | inr n ↦ elim (Bool-cases (all (has_succeeded before run_id) b.depends_on)) [
    | inl e ↦ rw e (unblock_each_queues before run_id now s bs _ n ready)
    | inr e ↦ rw e (unblock_each_queues before run_id now s bs cur n ready)
  ]
]

-- A BLOCKED step waits for something, or depends on the step that has just completed.
abbrev WaitsBut : String → String → List Step → Type 0
WaitsBut run_id name steps =
    (s : Step)
    → Memᴰ s steps
    → s.status ≡ Status.blocked
    → ((d : String) × Memᴰ d s.depends_on × (Done steps s.run_id d → ⊥))
      ⊎ ((s.run_id ≡ run_id) × Memᴰ name s.depends_on)

unblock_ready-BlockedWait :
    (steps : List Step) (run_id name : String) (now : ℕ)
    → HasKeys steps
    → WaitsBut run_id name steps
    → BlockedWait (unblock_ready run_id name now steps).0
unfolding unblock_ready is_blocked_dependent
unblock_ready-BlockedWait steps run_id name now keys waits s m blocked =
    let bs = select (is_blocked_dependent run_id name) steps in
    let back = unblock_each_back steps run_id now bs steps in
    let old = back s m (inl blocked) in
    elim (waits s old blocked) [
      | inl (d, dep, open_dep) ↦ (d, dep, λ done. open_dep (Done-back back done))
      | inr (home, dep) ↦
          let listed : Memᴰ s bs = mem-select_intro (is_blocked_dependent run_id name) s steps old (
            &&-intro _ _ ((eq_iff _ _).1 home) (
              &&-intro _ _ ((is_iff Status.blocked s.status).1 blocked)
                (any-mem (λ d. str_eq d name) s.depends_on name dep ((eq_iff _ _).1 refl)))) in
          elim (Bool-cases (all (has_succeeded steps run_id) s.depends_on)) [
            | inl ready ↦
                absurd
                  (unblock_each_queues steps run_id now s bs steps listed ready s m refl blocked)
            | inr not_ready ↦
                let (d, dep', miss) =
                  all_witness (has_succeeded steps run_id) s.depends_on not_ready in
                (
                  d,
                  dep',
                  λ done.
                      let hit =
                        Done-has_succeeded steps run_id d keys (Done-back back (rw home at done)) in
                      absurd (ground arith),
                )
          ]
    ]

delete_if_ephemeral-BlockedWait :
    (run : Run) (db : Db) → BlockedWait db.steps → BlockedWait (delete_if_ephemeral run db).steps
unfolding delete_ephemeral_run
delete_if_ephemeral-BlockedWait run db waits = elim (Bool-cases run.ephemeral) [
  | inl e ↦ rw e (BlockedWait-back (delete-NoneSettles (in_run run.id) db.steps) waits)
  | inr e ↦ rw e waits
]

-- What the caller of a completion knows: the step's row is in the run, under the name.
abbrev pub BelongsTo : Completion → List Step → Type 0
BelongsTo c steps =
    (s : Step) → Memᴰ s steps → s.id ≡ c.step_id → (s.run_id ≡ c.run_id) × (s.name ≡ c.name)

module _ (c : Completion) (db : Db) (keys : HasKeys db.steps) (home : BelongsTo c db.steps)
    (waits : BlockedWait db.steps) where
  succeeded : List Step
  succeeded = update (can_complete c.step_id) (succeed_row c.output c.now) db.steps

  succeeded-HasKeys : HasKeys succeeded
  unfolding succeeded
  succeeded-HasKeys =
      HasKeys-update (can_complete c.step_id) (succeed_row c.output c.now) db.steps (λ _ _. refl)
        (λ _ _. refl) (λ _ _. refl) keys

  -- A step that is done after the update was done before, or is the one completed.
  newly-Done :
      (run_id name : String)
      → Done succeeded run_id name
      → Done db.steps run_id name ⊎ ((run_id ≡ c.run_id) × (name ≡ c.name))
  unfolding succeeded
  newly-Done run_id name d =
      let (x, n, e) =
        mem-update (can_complete c.step_id) (succeed_row c.output c.now) d.step db.steps d.mem in
      elim (Bool-cases (can_complete c.step_id x)) [
        | inl hit ↦
            let same : d.step ≡ succeed_row c.output c.now x = rw hit at e in
            let (run, named) = home x n ((eq_iff _ _).0 (&&-true _ _ hit).0) in
            inr (
              sym d.home ∙ ap (λ s. s.run_id) same ∙ run,
              sym d.named ∙ ap (λ s. s.name) same ∙ named,
            )
        | inr miss ↦
            let same : d.step ≡ x = rw miss at e in
            inl (record {
              step = x;
              mem = n;
              home = ap (λ s. s.run_id) (sym same) ∙ d.home;
              named = ap (λ s. s.name) (sym same) ∙ d.named;
              succeeded = ap (λ s. s.status) (sym same) ∙ d.succeeded;
            })
      ]

  succeeded_blocked : (s : Step) → Memᴰ s succeeded → s.status ≡ Status.blocked → Memᴰ s db.steps
  unfolding succeeded
  succeeded_blocked s m blocked =
      let (x, n, e) =
        mem-update (can_complete c.step_id) (succeed_row c.output c.now) s db.steps m in
      elim (Bool-cases (can_complete c.step_id x)) [
        | inl hit ↦
            let same : s ≡ succeed_row c.output c.now x = rw hit at e in
            let bad : Status.succeeded ≡ Status.blocked = ap (λ z. z.status) (sym same) ∙ blocked in
            absurd (ground arith)
        | inr miss ↦ let same : s ≡ x = rw miss at e in rw same n
      ]

  succeeded-WaitsBut : WaitsBut c.run_id c.name succeeded
  succeeded-WaitsBut s m blocked =
      let (d, dep, open_dep) = waits s (succeeded_blocked s m blocked) blocked in
      elim (Bool-cases (has_succeeded succeeded s.run_id d)) [
        | inl e ↦ elim (newly-Done s.run_id d (has_succeeded-Done succeeded s.run_id d e)) [
          | inl old ↦ absurd (open_dep old)
          | inr (run, named) ↦ inr (run, rw named at dep)
        ]
        | inr e ↦ inl (
          d,
          dep,
          λ done.
              let hit = Done-has_succeeded succeeded s.run_id d succeeded-HasKeys done in
              absurd (ground arith),
        )
      ]

  dag_waits :
      (run : Run) (n : ℕ)
      → run.id ≡ c.run_id
      → BlockedWait (complete_dag run c (record db { steps = succeeded })).0.steps
  unfolding complete_dag
  dag_waits run n same =
      let after =
        unblock_ready-BlockedWait succeeded run.id c.name c.now succeeded-HasKeys
          (rw same succeeded-WaitsBut) in
      let steps = (unblock_ready run.id c.name c.now succeeded).0 in
      elim (Bool-cases (any (λ s. in_run run.id s && is_active s.status) steps)) [
        | inl e ↦ rw e after
        | inr e ↦ rw e (delete_if_ephemeral-BlockedWait run _ after)
      ]

  live_waits :
      (run : Run)
      → run.id ≡ c.run_id
      → BlockedWait (complete_live (count (in_run c.run_id) db.steps) run c db).0.steps
  unfolding complete_live complete_single succeeded
  live_waits run same = elim (Bool-cases (count (can_complete c.step_id) db.steps == 0)) [
    | inl e ↦ rw e waits
    | inr e ↦ elim (Bool-cases (count (in_run c.run_id) db.steps == 1)) [
      | inl one ↦ rw (e, one) (delete_if_ephemeral-BlockedWait run _ (alone e one))
      | inr many ↦ rw (e, many) (dag_waits run 0 same)
    ]
  ]
    where
      alone :
          (count (can_complete c.step_id) db.steps == 0) ≡ false
          → (count (in_run c.run_id) db.steps == 1) ≡ true
          → BlockedWait succeeded
      alone e one s m blocked = elim (succeeded-WaitsBut s m blocked) [
        | inl found ↦ found
        | inr (run, _) ↦
            let idle = single_idle c db.steps (ground arith) (λ x n h. (home x n h).0) e s m run in
            absurd (ground arith)
      ]

-- CompleteStep loses no wakeup. Suppose that step ids, and step names within a run, are unique, that
-- the completed step's row carries the given run and name, and that every BLOCKED step has a dependency
-- that has not SUCCEEDED. Then after CompleteStep, unless it fails, every BLOCKED step still has one:
-- each step that the success made ready has been queued.
pub complete_step-BlockedWait :
    (c : Completion) (db : Db)
    → HasKeys db.steps
    → BelongsTo c db.steps
    → BlockedWait db.steps
    → OnOk (λ r. BlockedWait r.0.steps) (complete_step c db)
unfolding complete_step complete_step_tx complete_dead step_count
complete_step-BlockedWait c db keys home waits =
    elim (Option-cases (first (is_run c.run_id) db.runs)) [
      | inl e ↦ rw (e, complete_step_tx) tt
      | inr (run, e) ↦
          let same = (eq_iff run.id c.run_id).0 (mem-first (is_run c.run_id) run db.runs e).1 in
          elim (Bool-cases (is_terminal run.status)) [
            | inl t ↦
                rw (e, complete_step_tx, t)
                  (BlockedWait-back
                    (update-NoneSettles (can_complete c.step_id) (cancel_step_row c.now) db.steps
                      (λ x hit bad. ground arith))
                    waits)
            | inr t ↦ rw (e, complete_step_tx, t) (live_waits c db keys home waits run same)
          ]
    ]
