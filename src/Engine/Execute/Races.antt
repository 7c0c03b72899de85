-- ===== src/Engine/Execute/Races.antt =====
-- A cancel or a pause that races with the executor of a claimed step.
pub mod Late
pub mod Cancelled
pub mod Paused
use quacker.Prelude.{
  ℕ, ◌≡◌, refl, sym, ◌∙◌, ap, subst, String, Bool, true, false, ◌&&◌, List, [], ◌∷◌, ◌++◌, Memᴰ,
  Option, none, some, inl, inr, Bool-cases, Option-cases, str_eq, eq_iff, any-mem, mem-cons_cases,
  mem-map_intro, mem-append_right, mem-append_left, any-witness, &&-intro,
}
use quacker.Table.{update, first}
use quacker.Table.Laws.{mem-select_intro}
use quacker.Store.Model.{Status, is, is_terminal, Step, Run, Db, ok}
use quacker.Store.Lifecycle.{cancel_run, cancel_run_tx, cancel_row, running_steps, pause_run}
use quacker.Store.Complete.{is_run}
use quacker.Engine.Requests.{TaskDef}
use quacker.Engine.State.{publish, transition, Engine, World, is_in, add, remove, task_def}
use quacker.Engine.Control.{
  is_run_terminal, halt_step, cancel_step_contexts, mark_paused, Interrupt,
}
use quacker.Engine.Execute.Race.{
  Race, Half, Executor, Move, entered, begun, commit_at, finish_at, enter_at, decide_at, move, play,
}
use quacker.Engine.Execute.{Begun, Entered, enter, decide, task_name, consume_pause}

is_in-add : (x y : String) (xs : List String) → is_in x xs ≡ true → is_in x (add y xs) ≡ true
is_in-add x y xs h = elim (Bool-cases (is_in y xs)) [
  | inl e ↦ rw e h
  | inr e ↦
      let (z, m, k) = any-witness (str_eq x) xs h in
      rw e (any-mem (str_eq x) (xs ++ y ∷ []) z (mem-append_left z xs (y ∷ []) m) k)
]

is_in-snoc : (x y : String) (xs : List String) → is_in x xs ≡ true → is_in x (xs ++ y ∷ []) ≡ true
is_in-snoc x y xs h =
    let (z, m, k) = any-witness (str_eq x) xs h in
    any-mem (str_eq x) (xs ++ y ∷ []) z (mem-append_left z xs (y ∷ []) m) k

is_in-snoc_self : (x : String) (xs : List String) → is_in x (xs ++ x ∷ []) ≡ true
is_in-snoc_self x xs =
    any-mem (str_eq x) (xs ++ x ∷ []) x (mem-append_right x xs (x ∷ []) (Memᴰ.head refl))
      ((eq_iff x x).1 refl)

is_in-add_self : (x : String) (xs : List String) → is_in x (add x xs) ≡ true
is_in-add_self x xs = elim (Bool-cases (is_in x xs)) [
  | inl e ↦ rw (e, e) refl
  | inr e ↦ rw e (
      any-mem (str_eq x) (xs ++ x ∷ []) x (mem-append_right x xs (x ∷ []) (Memᴰ.head refl))
        ((eq_iff x x).1 refl))
]

halts_kept :
    (ids : List String) (id : String) (e : Engine)
    → is_in id e.halt_steps ≡ true
    → is_in id (cancel_step_contexts ids e).halt_steps ≡ true
unfolding cancel_step_contexts halt_step
halts_kept [] id e h = h
halts_kept (x ∷ ids) id e h = elim (Bool-cases (is_in x e.cancels)) [
  | inl k ↦ simp k (halts_kept ids id _ h)
  | inr k ↦ simp k (halts_kept ids id _ (is_in-add id x e.halt_steps h))
]

-- A step without a cancel function gets a tombstone.
halts_left :
    (ids : List String) (id : String) (e : Engine)
    → Memᴰ id ids
    → is_in id e.cancels ≡ false
    → is_in id (cancel_step_contexts ids e).halt_steps ≡ true
unfolding cancel_step_contexts halt_step
halts_left [] id e m h = elim m [ ]
halts_left (x ∷ ids) id e m h = elim (mem-cons_cases m) [
  | inl same ↦
      let k : is_in x e.cancels ≡ false = subst (λ y. is_in y e.cancels ≡ false) same h in
      simp k (
        halts_kept ids id _
          (subst (λ y. is_in id (add y e.halt_steps) ≡ true) same (is_in-add_self id e.halt_steps)))
  | inr later ↦ elim (Bool-cases (is_in x e.cancels)) [
    | inl k ↦ simp k (halts_left ids id _ later h)
    | inr k ↦ simp k (halts_left ids id _ later h)
  ]
]

first-update :
    (id : String) (f : Run → Run) (runs : List Run) (run : Run)
    → ((r : Run) → (f r).id ≡ r.id)
    → first (is_run id) runs ≡ some run
    → first (is_run id) (update (is_run id) f runs) ≡ some (f run)
unfolding first update
first-update id f [] run same h = cc
first-update id f (r ∷ runs) run same h = elim (Bool-cases (is_run id r)) [
  | inl e ↦
      let k : some r ≡ some run = rw e at h in
      let k' : r ≡ run = cc in
      let hit : is_run id (f r) ≡ true = ap (λ x. str_eq x id) (same r) ∙ e in
      rw (e, hit) (ap (λ x. some (f x)) k')
  | inr e ↦ rw (e, e) (first-update id f runs run same (rw e at h))
]

running_member :
    (st : Step) (db : Db)
    → Memᴰ st db.steps
    → st.status ≡ Status.running
    → Memᴰ st.id (running_steps st.run_id db)
unfolding running_steps
running_member st db m h =
    mem-map_intro (λ s. s.id) st _
      (mem-select_intro (λ s. str_eq s.run_id st.run_id && is Status.running s.status) st db.steps m
        (&&-intro _ _ ((eq_iff _ _).1 refl) (ap (is Status.running) h)))

-- A step with a cancel function is cancelled.
calls_kept :
    (ids : List String) (id : String) (e : Engine)
    → is_in id e.cancelled ≡ true
    → is_in id (cancel_step_contexts ids e).cancelled ≡ true
unfolding cancel_step_contexts halt_step
calls_kept [] id e h = h
calls_kept (x ∷ ids) id e h = elim (Bool-cases (is_in x e.cancels)) [
  | inl k ↦ simp k (calls_kept ids id _ (is_in-snoc id x e.cancelled h))
  | inr k ↦ simp k (calls_kept ids id _ h)
]

calls_made :
    (ids : List String) (id : String) (e : Engine)
    → Memᴰ id ids
    → is_in id e.cancels ≡ true
    → is_in id (cancel_step_contexts ids e).cancelled ≡ true
unfolding cancel_step_contexts halt_step
calls_made [] id e m h = elim m [ ]
calls_made (x ∷ ids) id e m h = elim (mem-cons_cases m) [
  | inl same ↦
      let k : is_in x e.cancels ≡ true = subst (λ y. is_in y e.cancels ≡ true) same h in
      simp k (
        calls_kept ids id _ (
          subst (λ y. is_in id (e.cancelled ++ y ∷ []) ≡ true) same
            (is_in-snoc_self id e.cancelled)))
  | inr later ↦ elim (Bool-cases (is_in x e.cancels)) [
    | inl k ↦ simp k (calls_made ids id _ later h)
    | inr k ↦ simp k (calls_made ids id _ later h)
  ]
]

-- The run goes on and the step runs.
record Ready (unwanted : Run → Bool) (st : Step) (db : Db) : Type 0 where
  run : Run
  found : first (is_run st.run_id) db.runs ≡ some run
  live : is_terminal run.status ≡ false
  wanted : unwanted run ≡ false
  member : Memᴰ st db.steps
  running : st.status ≡ Status.running

marks_kept :
    (ids : List String) (id : String) (e : Engine)
    → is_in id e.pause_steps ≡ true
    → is_in id (mark_paused ids e).pause_steps ≡ true
unfolding mark_paused
marks_kept [] id e h = h
marks_kept (x ∷ ids) id e h = marks_kept ids id _ (is_in-add id x e.pause_steps h)

-- A step with a cancel function is cancelled too.
mark_calls_kept :
    (ids : List String) (id : String) (e : Engine)
    → is_in id e.cancelled ≡ true
    → is_in id (mark_paused ids e).cancelled ≡ true
unfolding mark_paused
mark_calls_kept [] id e h = h
mark_calls_kept (x ∷ ids) id e h = mark_calls_kept ids id _ (elim (Bool-cases (is_in x e.cancels)) [
  | inl k ↦ rw k (is_in-snoc id x e.cancelled h)
  | inr k ↦ rw k h
])

mark_calls_made :
    (ids : List String) (id : String) (e : Engine)
    → Memᴰ id ids
    → is_in id e.cancels ≡ true
    → is_in id (mark_paused ids e).cancelled ≡ true
unfolding mark_paused
mark_calls_made [] id e m h = elim m [ ]
mark_calls_made (x ∷ ids) id e m h = elim (mem-cons_cases m) [
  | inl same ↦
      let k : is_in x e.cancels ≡ true = subst (λ y. is_in y e.cancels ≡ true) same h in
      mark_calls_kept ids id _ (
        rw k (
          subst (λ y. is_in id (e.cancelled ++ y ∷ []) ≡ true) same
            (is_in-snoc_self id e.cancelled)))
  | inr later ↦ mark_calls_made ids id _ later h
]

marks_left :
    (ids : List String) (id : String) (e : Engine)
    → Memᴰ id ids
    → is_in id (mark_paused ids e).pause_steps ≡ true
unfolding mark_paused
marks_left [] id e m = elim m [ ]
marks_left (x ∷ ids) id e m = elim (mem-cons_cases m) [
  | inl same ↦
      marks_kept ids id _
        (subst (λ y. is_in id (add y e.pause_steps) ≡ true) same (is_in-add_self id e.pause_steps))
  | inr later ↦ marks_left ids id _ later
]

module _ (st : Step) (now : ℕ) (w : World) where
  enter-cases :
      (P : Entered → Type 0)
      → ((w' : World) → P (Entered.unknown w'))
      → ((def : TaskDef)
          → P (
              Entered.registered def (is_in st.id w.engine.halt_steps) (record w {
                engine = record w.engine {
                  cancels = add st.id w.engine.cancels;
                  halt_steps = remove st.id w.engine.halt_steps;
                };
              })))
      → P (enter st now w)
  unfolding enter
  enter-cases P none_case some_case = elim (Option-cases (task_def (task_name st) w.engine)) [
    | inl e ↦ rw (e, enter) (none_case _)
    | inr (def, e) ↦ rw (e, enter) (some_case def)
  ]

  decide-cases :
      (P : Begun → Type 0) (def : TaskDef) (halted : Bool)
      → ((w' : World) → P (Begun.over w'))
      → ((halted && is_run_terminal st.run_id w.db) ≡ false
          → is_in st.id w.engine.pause_steps ≡ false
          → P (
              Begun.run def (record w {
                engine = record w.engine { pause_steps = remove st.id w.engine.pause_steps };
              })))
      → P (decide st def halted now w)
  unfolding decide consume_pause
  decide-cases P def halted over_case run_case =
      elim (Bool-cases (halted && is_run_terminal st.run_id w.db)) [
        | inl k ↦ rw k (over_case _)
        | inr k ↦ elim (Bool-cases (is_in st.id w.engine.pause_steps)) [
          | inl p ↦ rw (k, p) (over_case _)
          | inr p ↦ rw (k, p) (run_case k p)
        ]
      ]

-- A Cancel or a PauseRun that got through stays so.
module _ (first_half : World → World × Option Interrupt) (second_half : Interrupt → World → World)
    (st : Step) where
  still-move :
      (m : Move) (x : Executor) (h : Half) (w : World)
      → h ≡ Half.finished
      → (move first_half second_half st m (record { world = w; half = h; executor = x })).half
        ≡ Half.finished
  unfolding move commit_at finish_at enter_at decide_at entered begun
  still-move Move.commit x Half.asked w e = cc
  still-move Move.commit x (Half.committed i) w e = cc
  still-move Move.commit x Half.finished w e = refl
  still-move Move.finish x Half.asked w e = cc
  still-move Move.finish x (Half.committed i) w e = cc
  still-move Move.finish x Half.finished w e = refl
  still-move (Move.enter_step now) Executor.returned h w e = e
  still-move (Move.enter_step now) (Executor.registered def b) h w e = e
  still-move (Move.enter_step now) (Executor.in_body def) h w e = e
  still-move (Move.enter_step now) Executor.claimed h w e =
      enter-cases st now w
        (λ y.
          (entered y (record { world = w; half = h; executor = Executor.claimed })).half
          ≡ Half.finished)
        (λ w'. e) (λ def. e)
  still-move (Move.decide_step now) Executor.returned h w e = e
  still-move (Move.decide_step now) Executor.claimed h w e = e
  still-move (Move.decide_step now) (Executor.in_body def) h w e = e
  still-move (Move.decide_step now) (Executor.registered def b) h w e =
      decide-cases st now w
        (λ y.
          (begun y (record { world = w; half = h; executor = Executor.registered def b })).half
          ≡ Half.finished)
        def b (λ w'. e) (λ k p. e)

  still-play :
      (ms : List Move) (r : Race)
      → r.half ≡ Half.finished
      → (play first_half second_half st ms r).half ≡ Half.finished
  unfolding play
  still-play [] r e = e
  still-play (m ∷ ms) r e = still-play ms _ (still-move m r.executor r.half r.world e)
