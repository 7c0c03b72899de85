-- ===== src/Engine/Execute/Races/Late.antt =====
-- An executor that comes too late: Cancel or PauseRun has got through, and it will not run the body. What
-- keeps it from the body is a section parameter.
use quacker.Prelude.{ℕ, ◌≡◌, ◌≢◌, Bool, false, ◌&&◌, List, [], ◌∷◌, Option}
use quacker.Store.Model.{Step}
use quacker.Engine.Requests.{TaskDef}
use quacker.Engine.State.{World, is_in, add, remove}
use quacker.Engine.Control.{Interrupt, is_run_terminal}
use quacker.Engine.Execute.Race.{
  Race, Half, Executor, Move, entered, begun, commit_at, finish_at, enter_at, decide_at, play,
}
use quacker.Engine.Execute.Races.{enter-cases, decide-cases}

-- The world after the locked section of execute.
abbrev pub registered_world : Step → World → World
registered_world st w = record w {
  engine = record w.engine {
    cancels = add st.id w.engine.cancels;
    halt_steps = remove st.id w.engine.halt_steps;
  };
}

module _ (first_half : World → World × Option Interrupt) (second_half : Interrupt → World → World)
    (st : Step) (Barred : World → Type 0) (BarredAs : Bool → World → Type 0)
    (enters : (w : World)
      → Barred w
      → BarredAs (is_in st.id w.engine.halt_steps) (registered_world st w))
    (decides : (w : World) (halted : Bool)
      → BarredAs halted w
      → (halted && is_run_terminal st.run_id w.db) ≡ false
      → is_in st.id w.engine.pause_steps ≡ false
      → ⊥) where
  abbrev pub TooLate : Executor → Half → World → Type 0
  TooLate Executor.returned half w = half ≡ Half.finished
  TooLate Executor.claimed half w = (half ≡ Half.finished) × Barred w
  TooLate (Executor.registered def h) half w = (half ≡ Half.finished) × BarredAs h w
  TooLate (Executor.in_body def) half w = ⊥

  abbrev pub LateRace : Race → Type 0
  LateRace r = TooLate r.executor r.half r.world

  TooLate-finished : (x : Executor) (h : Half) (w : World) → TooLate x h w → h ≡ Half.finished
  TooLate-finished Executor.returned h w e = e
  TooLate-finished Executor.claimed h w f = f.0
  TooLate-finished (Executor.registered def b) h w f = f.0
  TooLate-finished (Executor.in_body def) h w f = absurd f

  late_commit :
      (x : Executor) (h : Half) (w : World)
      → TooLate x h w
      → LateRace
          (commit_at first_half second_half st h (record { world = w; half = h; executor = x }))
  unfolding commit_at
  late_commit x Half.asked w f = let e = TooLate-finished x Half.asked w f in cc
  late_commit x (Half.committed i) w f = f
  late_commit x Half.finished w f = f

  late_finish :
      (x : Executor) (h : Half) (w : World)
      → TooLate x h w
      → LateRace
          (finish_at first_half second_half st h (record { world = w; half = h; executor = x }))
  unfolding finish_at
  late_finish x (Half.committed i) w f = let e = TooLate-finished x (Half.committed i) w f in cc
  late_finish x Half.asked w f = f
  late_finish x Half.finished w f = f

  late_enter :
      (later : ℕ) (x : Executor) (h : Half) (w : World)
      → TooLate x h w
      → LateRace (
          enter_at first_half second_half st later x (record { world = w; half = h; executor = x }))
  unfolding enter_at entered
  late_enter later Executor.returned h w f = f
  late_enter later (Executor.registered def b) h w f = f
  late_enter later (Executor.in_body def) h w f = absurd f
  late_enter later Executor.claimed h w f =
      enter-cases st later w
        (λ x. LateRace (entered x (record { world = w; half = h; executor = Executor.claimed })))
        (λ w'. f.0) (λ def. (f.0, enters w f.1))

  late_decide :
      (later : ℕ) (x : Executor) (h : Half) (w : World)
      → TooLate x h w
      → LateRace (
          decide_at first_half second_half st later x
            (record { world = w; half = h; executor = x }))
  unfolding decide_at begun
  late_decide later Executor.returned h w f = f
  late_decide later Executor.claimed h w f = f
  late_decide later (Executor.in_body def) h w f = absurd f
  late_decide later (Executor.registered def b) h w f =
      decide-cases st later w
        (λ x.
          LateRace (begun x (record { world = w; half = h; executor = Executor.registered def b })))
        def b (λ w'. f.0) (λ e p. absurd (decides w b f.1 e p))

  keep_late :
      (ms : List Move) (r : Race) → LateRace r → LateRace (play first_half second_half st ms r)
  unfolding play
  keep_late [] r f = f
  keep_late (Move.commit ∷ ms) r f = keep_late ms _ (late_commit r.executor r.half r.world f)
  keep_late (Move.finish ∷ ms) r f = keep_late ms _ (late_finish r.executor r.half r.world f)
  keep_late (Move.enter_step later ∷ ms) r f =
      keep_late ms _ (late_enter later r.executor r.half r.world f)
  keep_late (Move.decide_step later ∷ ms) r f =
      keep_late ms _ (late_decide later r.executor r.half r.world f)

  pub LateRace-not_in_body :
      (def : TaskDef) (ms : List Move) (r : Race)
      → LateRace r
      → (play first_half second_half st ms r).executor ≢ Executor.in_body def
  LateRace-not_in_body def ms r f =
      let final = play first_half second_half st ms r in
      out final.executor final.half final.world (keep_late ms r f)
    where
      out : (x : Executor) (h : Half) (w : World) → TooLate x h w → x ≢ Executor.in_body def
      out Executor.returned h w f k = cc
      out Executor.claimed h w f k = cc
      out (Executor.registered d b) h w f k = cc
      out (Executor.in_body d) h w f k = f
