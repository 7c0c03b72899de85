-- ===== src/Store/Dag.antt =====
-- What the step graph of a run promises, stated on the steps table: a step has started only after all
-- of its dependencies succeeded, and a BLOCKED step is waiting for one that has not.
pub mod Evolution
pub mod Keys
pub mod Waiting
use quacker.Prelude.{ℕ, ◌≤◌, ◌≡◌, String, Bool, true, false, ◌&&◌, List, Memᴰ, str_eq}
use quacker.Table.{count}
use quacker.Store.Model.{Status, Step}

-- The run's step named `name` has succeeded.
pub record Done (steps : List Step) (run_id name : String) : Type 0 where
  pub step : Step
  pub mem : Memᴰ step steps
  pub home : step.run_id ≡ run_id
  pub named : step.name ≡ name
  pub succeeded : step.status ≡ Status.succeeded

-- The statuses of a step that has been queued.
abbrev pub is_launched : Status → Bool
is_launched Status.blocked = false
is_launched Status.cancelled = false
is_launched Status.paused = false
is_launched _ = true

-- A step that has been queued has all of its dependencies done.
abbrev pub DepsDone : List Step → Type 0
DepsDone steps =
    (s : Step)
    → Memᴰ s steps
    → is_launched s.status ≡ true
    → (d : String) → Memᴰ d s.depends_on
    → Done steps s.run_id d

-- A BLOCKED step has a dependency that is not done: no step waits for nothing.
abbrev pub BlockedWait : List Step → Type 0
BlockedWait steps =
    (s : Step)
    → Memᴰ s steps
    → s.status ≡ Status.blocked
    → (d : String) × Memᴰ d s.depends_on × (Done steps s.run_id d → ⊥)

-- The keys of the steps table: the id, and the name within a run.
abbrev pub named_in : String → String → Step → Bool
named_in run_id name s = str_eq s.run_id run_id && str_eq s.name name

pub record HasKeys (steps : List Step) : Type 0 where
  pub ids : (i : String) → count (λ s. str_eq s.id i) steps ≤ 1
  pub names : (r n : String) → count (named_in r n) steps ≤ 1
