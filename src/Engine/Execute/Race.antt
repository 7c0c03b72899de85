-- ===== src/Engine/Execute/Race.antt =====
-- A Cancel or a PauseRun of engine.go and the executor of a claimed step of the run, interleaved: the store's
-- commit, the locked section after it, and the executor's two sections are separate moves.
use quacker.Prelude.{ℕ, Bool, List, [], ◌∷◌, Option, none, some}
use quacker.Store.Model.{Step}
use quacker.Engine.Requests.{TaskDef}
use quacker.Engine.State.{World}
use quacker.Engine.Control.{Interrupt}
use quacker.Engine.Execute.{Begun, Entered, enter, decide}

-- How far the Cancel or the PauseRun is, and how far the executor.
pub data Half : Type 0 where
  asked finished : Half
  committed : Option Interrupt → Half

pub data Executor : Type 0 where
  claimed returned : Executor
  registered : TaskDef → Bool → Executor
  in_body : TaskDef → Executor

pub record Race : Type 0 where
  pub world : World
  pub half : Half
  pub executor : Executor

pub data Move : Type 0 where
  commit finish : Move
  enter_step decide_step : ℕ → Move

unfoldable pub entered : Entered → Race → Race
entered (Entered.unknown w) r = record r { world = w; executor = Executor.returned }
entered (Entered.registered def halted w) r = record r {
  world = w;
  executor = Executor.registered def halted;
}

unfoldable pub begun : Begun → Race → Race
begun (Begun.over w) r = record r { world = w; executor = Executor.returned }
begun (Begun.run def w) r = record r { world = w; executor = Executor.in_body def }

module _ (first_half : World → World × Option Interrupt) (second_half : Interrupt → World → World)
    (st : Step) where
  unfoldable pub commit_at : Half → Race → Race
  commit_at Half.asked r = record r {
    world = (first_half r.world).0;
    half = Half.committed (first_half r.world).1;
  }
  commit_at _ r = r

  unfoldable pub finish_at : Half → Race → Race
  finish_at (Half.committed none) r = record r { half = Half.finished }
  finish_at (Half.committed (some i)) r = record r {
    world = second_half i r.world;
    half = Half.finished;
  }
  finish_at _ r = r

  unfoldable pub enter_at : ℕ → Executor → Race → Race
  unfolding entered enter
  enter_at now Executor.claimed r = entered (enter st now r.world) r
  enter_at now _ r = r

  unfoldable pub decide_at : ℕ → Executor → Race → Race
  unfolding begun decide
  decide_at now (Executor.registered def halted) r = begun (decide st def halted now r.world) r
  decide_at now _ r = r

  -- A move of one of the two; one that is not due changes nothing.
  unfoldable pub move : Move → Race → Race
  unfolding commit_at finish_at enter_at decide_at
  move Move.commit r = commit_at r.half r
  move Move.finish r = finish_at r.half r
  move (Move.enter_step now) r = enter_at now r.executor r
  move (Move.decide_step now) r = decide_at now r.executor r

  unfoldable pub play : List Move → Race → Race
  unfolding move
  play [] r = r
  play (m ∷ ms) r = play ms (move m r)

-- Neither has begun.
abbrev pub at_start : World → Race
at_start w = record { world = w; half = Half.asked; executor = Executor.claimed }
