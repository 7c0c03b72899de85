-- ===== src/Engine/Execute/Races/Paused.antt =====
-- PauseRun against the executor of one of the run's steps.
use quacker.Prelude.{
  ◌&&◌, ℕ, ◌≡◌, refl, sym, ◌∙◌, ◌⊎◌, inl, inr, ap, subst, Bool, true, false, List, [], ◌∷◌, Memᴰ,
  Option, none, some, arith,
}
use quacker.Table.{first, update}
use quacker.Store.Model.{Status, is, Step, Run, Db, is_terminal, ok, err}
use quacker.Store.Lifecycle.{pause_run, running_steps}
use quacker.Store.Complete.{is_run}
use quacker.Engine.Requests.{TaskDef}
use quacker.Engine.State.{World, is_in, publish}
use quacker.Engine.Control.{is_run_terminal, Interrupt, pause_commit, pause_finish}
use quacker.Engine.Execute.Race.{
  Race, Half, Executor, Move, entered, begun, commit_at, finish_at, enter_at, decide_at, play,
  at_start,
}
use quacker.Engine.Execute.Races.Late.{TooLate, LateRace-not_in_body}
use quacker.Engine.Execute.Races.{
  Ready, is_in-add_self, marks_left, mark_calls_made, running_member, enter-cases, decide-cases,
  still-play,
}

abbrev IsUnpaused : Step → Db → Type 0
IsUnpaused st db = Ready (λ r. is Status.paused r.status) st db

abbrev Registers : Step → World → Bool → Type 0
Registers st w b = is_in st.id w.engine.cancels ≡ b

abbrev IsMarked : Step → World → Type 0
IsMarked st w = is_in st.id w.engine.pause_steps ≡ true

-- What holds at each point of the race.
abbrev Fair : Step → Executor → Half → World → Type 0
Fair st Executor.returned half w = Unit {0}
Fair st Executor.claimed Half.asked w = IsUnpaused st w.db
Fair st Executor.claimed (Half.committed none) w = ⊥
Fair st Executor.claimed (Half.committed (some i)) w = Memᴰ st.id i.running
Fair st Executor.claimed Half.finished w = IsMarked st w
Fair st (Executor.registered def h) Half.asked w = IsUnpaused st w.db × Registers st w true
Fair st (Executor.registered def h) (Half.committed none) w = ⊥
Fair st (Executor.registered def h) (Half.committed (some i)) w =
    Memᴰ st.id i.running × Registers st w true
Fair st (Executor.registered def h) Half.finished w = IsMarked st w
Fair st (Executor.in_body def) Half.asked w = IsUnpaused st w.db × Registers st w true
Fair st (Executor.in_body def) (Half.committed none) w = ⊥
Fair st (Executor.in_body def) (Half.committed (some i)) w =
    Memᴰ st.id i.running × Registers st w true
Fair st (Executor.in_body def) Half.finished w = is_in st.id w.engine.cancelled ≡ true

abbrev FairRace : Step → Race → Type 0
FairRace st r = Fair st r.executor r.half r.world

-- The first half, up to the commit; an error of the store ends the call.
unfoldable pub pausing : Step → ℕ → World → World × Option Interrupt
unfolding pause_commit
pausing st now w = elim (pause_commit st.run_id now w) [ err e ↦ (w, none) | ok p ↦ p ]

pausing-some :
    (st : Step) (now : ℕ) (w : World)
    → IsUnpaused st w.db
    → (w' : World) × (i : Interrupt) × (pausing st now w ≡ (w', some i))
      × (w'.engine ≡ w.engine)
      × Memᴰ st.id i.running
unfolding pausing pause_commit pause_run
pausing-some st now w k = (
  record w {
    db = record w.db {
      runs =
          update (is_run st.run_id) (λ r. record r { status = Status.paused; paused_at = now })
            w.db.runs;
    };
  },
  record {
    run_id = st.run_id;
    prev_status = k.run.status;
    running = running_steps st.run_id w.db;
    at = now;
  },
  rw (k.found, pausing, pause_commit, pause_run, k.live, k.wanted) refl,
  refl,
  running_member st w.db k.member k.running,
)

module _ (st : Step) (now : ℕ) where
  keep_commit :
      (x : Executor) (h : Half) (w : World)
      → Fair st x h w
      → FairRace st (
          commit_at
            (pausing st now)
            pause_finish
            st
            h
            (record { world = w; half = h; executor = x }))
  unfolding commit_at
  keep_commit Executor.returned Half.asked w f = tt
  keep_commit Executor.returned Half.finished w f = tt
  keep_commit Executor.returned (Half.committed i) w f = tt
  keep_commit x (Half.committed i) w f = f
  keep_commit x Half.finished w f = f
  keep_commit Executor.claimed Half.asked w k =
      let (w', i, e, same, m) = pausing-some st now w k in
      subst (λ p. Fair st Executor.claimed (Half.committed p.1) p.0) (sym e) m
  keep_commit (Executor.registered def b) Half.asked w (k, u) =
      let (w', i, e, same, m) = pausing-some st now w k in
      subst (λ p. Fair st (Executor.registered def b) (Half.committed p.1) p.0) (sym e)
        (m, ap (λ g. is_in st.id g.cancels) same ∙ u)
  keep_commit (Executor.in_body def) Half.asked w (k, u) =
      let (w', i, e, same, m) = pausing-some st now w k in
      subst (λ p. Fair st (Executor.in_body def) (Half.committed p.1) p.0) (sym e)
        (m, ap (λ g. is_in st.id g.cancels) same ∙ u)

  keep_finish :
      (x : Executor) (h : Half) (w : World)
      → Fair st x h w
      → FairRace st (
          finish_at
            (pausing st now)
            pause_finish
            st
            h
            (record { world = w; half = h; executor = x }))
  unfolding finish_at pause_finish publish
  keep_finish x Half.asked w f = f
  keep_finish x Half.finished w f = f
  keep_finish Executor.returned (Half.committed none) w f = tt
  keep_finish Executor.returned (Half.committed (some i)) w f = tt
  keep_finish Executor.claimed (Half.committed none) w f = absurd f
  keep_finish Executor.claimed (Half.committed (some i)) w m = marks_left i.running st.id w.engine m
  keep_finish (Executor.registered def b) (Half.committed none) w f = absurd f
  keep_finish (Executor.registered def b) (Half.committed (some i)) w (m, u) =
      marks_left i.running st.id w.engine m
  keep_finish (Executor.in_body def) (Half.committed none) w f = absurd f
  keep_finish (Executor.in_body def) (Half.committed (some i)) w (m, u) =
      mark_calls_made i.running st.id w.engine m u

  keep_enter :
      (later : ℕ) (x : Executor) (h : Half) (w : World)
      → Fair st x h w
      → FairRace st (
          enter_at
            (pausing st now)
            pause_finish
            st
            later
            x
            (record { world = w; half = h; executor = x }))
  unfolding enter_at entered
  keep_enter later Executor.returned h w f = tt
  keep_enter later (Executor.registered def b) h w f = f
  keep_enter later (Executor.in_body def) h w f = f
  keep_enter later Executor.claimed Half.asked w k =
      enter-cases st later w
        (λ x.
          FairRace st
            (entered x (record { world = w; half = Half.asked; executor = Executor.claimed })))
        (λ w'. tt) (λ def. (k, is_in-add_self st.id w.engine.cancels))
  keep_enter later Executor.claimed (Half.committed none) w f = absurd f
  keep_enter later Executor.claimed (Half.committed (some i)) w m =
      enter-cases st later w
        (λ x. FairRace st (
          entered x
            (record { world = w; half = Half.committed (some i); executor = Executor.claimed })))
        (λ w'. tt) (λ def. (m, is_in-add_self st.id w.engine.cancels))
  keep_enter later Executor.claimed Half.finished w marked =
      enter-cases st later w
        (λ x.
          FairRace st
            (entered x (record { world = w; half = Half.finished; executor = Executor.claimed })))
        (λ w'. tt) (λ def. marked)

  keep_decide :
      (later : ℕ) (x : Executor) (h : Half) (w : World)
      → Fair st x h w
      → FairRace st (
          decide_at
            (pausing st now)
            pause_finish
            st
            later
            x
            (record { world = w; half = h; executor = x }))
  unfolding decide_at begun
  keep_decide later Executor.returned h w f = tt
  keep_decide later Executor.claimed h w f = f
  keep_decide later (Executor.in_body def) h w f = f
  keep_decide later (Executor.registered def b) Half.asked w (k, u) =
      decide-cases st later w
        (λ x.
          FairRace st (
            begun x
              (record { world = w; half = Half.asked; executor = Executor.registered def b })))
        def b (λ w'. tt) (λ e p. (k, u))
  keep_decide later (Executor.registered def b) (Half.committed none) w f = absurd f
  keep_decide later (Executor.registered def b) (Half.committed (some i)) w f =
      decide-cases st later w
        (λ x. FairRace st (
          begun x (record {
            world = w;
            half = Half.committed (some i);
            executor = Executor.registered def b;
          })))
        def b (λ w'. tt) (λ e p. f)
  keep_decide later (Executor.registered def b) Half.finished w marked =
      decide-cases st later w
        (λ x. FairRace st (
          begun x
            (record { world = w; half = Half.finished; executor = Executor.registered def b })))
        def b (λ w'. tt) (λ e p. absurd (ground (arith, p, marked)))

  keep :
      (ms : List Move) (r : Race)
      → FairRace st r
      → FairRace st (play (pausing st now) pause_finish st ms r)
  unfolding play
  keep [] r f = f
  keep (Move.commit ∷ ms) r f = keep ms _ (keep_commit r.executor r.half r.world f)
  keep (Move.finish ∷ ms) r f = keep ms _ (keep_finish r.executor r.half r.world f)
  keep (Move.enter_step later ∷ ms) r f = keep ms _ (keep_enter later r.executor r.half r.world f)
  keep (Move.decide_step later ∷ ms) r f = keep ms _ (keep_decide later r.executor r.half r.world f)

Fair-in_body :
    (st : Step) (def : TaskDef) (x : Executor) (h : Half) (w : World)
    → Fair st x h w
    → h ≡ Half.finished
    → x ≡ Executor.in_body def
    → is_in st.id w.engine.cancelled ≡ true
Fair-in_body st def Executor.returned h w f e k = cc
Fair-in_body st def Executor.claimed h w f e k = cc
Fair-in_body st def (Executor.registered d b) h w f e k = cc
Fair-in_body st def (Executor.in_body d) Half.asked w f e k = cc
Fair-in_body st def (Executor.in_body d) (Half.committed i) w f e k = cc
Fair-in_body st def (Executor.in_body d) Half.finished w f e k = f

decides :
    (st : Step) (w : World) (halted : Bool)
    → IsMarked st w
    → (halted && is_run_terminal st.run_id w.db) ≡ false
    → is_in st.id w.engine.pause_steps ≡ false
    → ⊥
decides st w halted marked e p = ground arith

-- A mark bars the executor.
abbrev LateAt : Step → ℕ → Executor → Half → World → Type 0
LateAt st now =
    TooLate (pausing st now) pause_finish st (IsMarked st) (λ h. IsMarked st) (λ w m. m)
      (decides st)

-- Only an executor in the body can still be in the body later.
in_body_or_TooLate :
    (st : Step) (now : ℕ) (x : Executor) (h : Half) (w : World)
    → Fair st x h w
    → h ≡ Half.finished
    → ((def : TaskDef) × (x ≡ Executor.in_body def)) ⊎ LateAt st now x h w
in_body_or_TooLate st now (Executor.in_body d) h w f e = inl (d, refl)
in_body_or_TooLate st now Executor.returned h w f e = inr e
in_body_or_TooLate st now Executor.claimed Half.asked w f e = cc
in_body_or_TooLate st now Executor.claimed (Half.committed i) w f e = cc
in_body_or_TooLate st now Executor.claimed Half.finished w f e = inr (e, f)
in_body_or_TooLate st now (Executor.registered d b) Half.asked w f e = cc
in_body_or_TooLate st now (Executor.registered d b) (Half.committed i) w f e = cc
in_body_or_TooLate st now (Executor.registered d b) Half.finished w f e = inr (e, f)

-- PauseRun reaches the executor of a claimed step however the two interleave. Take a run that has not ended
-- and is not paused, one of its RUNNING steps whose executor has not begun, and any sequence of moves of the
-- two goroutines in which PauseRun gets through, followed by any others: if the executor then is in the
-- step's body, its cancel function has been called, and it was in the body already when PauseRun got through.
pub pause_race :
    (st : Step) (now : ℕ) (w : World) (run : Run) (ms later : List Move) (def : TaskDef)
    → first (is_run st.run_id) w.db.runs ≡ some run
    → is_terminal run.status ≡ false
    → is Status.paused run.status ≡ false
    → Memᴰ st w.db.steps
    → st.status ≡ Status.running
    → let through = play (pausing st now) pause_finish st ms (at_start w) in
      let final = play (pausing st now) pause_finish st later through in
      through.half ≡ Half.finished
      → final.executor ≡ Executor.in_body def
      → (is_in st.id final.world.engine.cancelled ≡ true)
        × ((begun_def : TaskDef) × (through.executor ≡ Executor.in_body begun_def))
pause_race st now w run ms later def found live unpaused m running done in_body =
    let through = play (pausing st now) pause_finish st ms (at_start w) in
    let final = play (pausing st now) pause_finish st later through in
    let ready : IsUnpaused st w.db = record {
      run = run;
      found = found;
      live = live;
      wanted = unpaused;
      member = m;
      running = running;
    } in
    let fair = keep st now ms (at_start w) ready in
    let still = still-play (pausing st now) pause_finish st later through done in
    (
      Fair-in_body st def final.executor final.half final.world (keep st now later through fair)
          still in_body,
      elim (in_body_or_TooLate st now through.executor through.half through.world fair done) [
        | inl b ↦ b
        | inr late ↦ absurd (
            LateRace-not_in_body (pausing st now) pause_finish st (IsMarked st) (λ h. IsMarked st)
              (λ w m. m) (decides st) def later through late in_body)
      ],
    )
