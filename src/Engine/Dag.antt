-- ===== src/Engine/Dag.antt =====
-- validateDAG of internal/engine/dag.go. Go's maps are functions, with Go's zero value for a missing
-- key. The loop over the queue is on fuel.
mod Edges
mod Relax
mod Kahn
mod Names
mod Start
pub mod Correct
use quacker.Prelude.{
  ℕ, zero, suc, ◌-◌, String, Bool, true, false, List, [], ◌∷◌, ◌++◌, Option, none, some, any, map,
  length, ◌⊎◌, inl, inr, str_eq, ◌==◌, if◌then◌else◌,
}
use quacker.Table.{select}
use quacker.Engine.Requests.{StepReq}

pub data DagError : Type 0 where
  unnamed cycle : DagError
  duplicate_name : String → DagError
  unknown_dep : String → String → DagError

-- m[key] = value
abbrev pub assign {ℓ} : {A : Type ℓ} → String → A → (String → A) → String → A
assign key value m k = if str_eq key k then value else m k

-- The first loop; `seen` is the map names.
unfoldable pub check_names : List String → List StepReq → Option DagError
check_names seen [] = none
check_names seen (s ∷ steps) =
    let rest = check_names (s.name ∷ seen) steps in
    if str_eq s.name ""
    then some DagError.unnamed
    else if any (str_eq s.name) seen
    then some (DagError.duplicate_name s.name)
    else rest

pub record Graph : Type 0 where
  pub indeg : String → ℕ
  pub adj : String → List String

-- The loop over one step's dependencies.
unfoldable pub link_deps : (String → Bool) → String → List String → Graph → DagError ⊎ Graph
link_deps known name [] g = inr g
link_deps known name (dep ∷ deps) g =
    let rest =
      link_deps known name deps (record g { adj = assign dep (g.adj dep ++ name ∷ []) g.adj }) in
    if known dep then rest else inl (DagError.unknown_dep name dep)

-- The second loop.
unfoldable pub link_steps : (String → Bool) → List StepReq → Graph → DagError ⊎ Graph
unfolding link_deps
link_steps known [] g = inr g
link_steps known (s ∷ steps) g =
    elim (link_deps known s.name s.deps
      (record g { indeg = assign s.name (length s.deps) g.indeg })) [
        | inl e ↦ inl e
        | inr linked ↦ link_steps known steps linked
      ]

-- The body of the last loop: the counters and the queue after the dependents of one name. A counter
-- that is 1 becomes 0 when it is decremented; one that is 0 would become -1 in Go, which is not 0 either.
unfoldable pub relax : List String → (String → ℕ) → List String → (String → ℕ) × List String
relax [] indeg queue = (indeg, queue)
relax (m ∷ ms) indeg queue =
    relax ms (assign m (indeg m - 1) indeg) (if indeg m == 1 then queue ++ m ∷ [] else queue)

-- The last loop: the number of names that it visits.
unfoldable pub visit : ℕ → (String → List String) → (String → ℕ) → List String → ℕ
unfolding relax
visit zero adj indeg queue = 0
visit (suc fuel) adj indeg [] = 0
visit (suc fuel) adj indeg (n ∷ queue) =
    let (indeg', queue') = relax (adj n) indeg queue in suc (visit fuel adj indeg' queue')

abbrev pub has_name : String → StepReq → Bool
has_name n s = str_eq n s.name

unfoldable pub validate_dag : List StepReq → Option DagError
unfolding check_names link_steps visit
validate_dag steps = elim (check_names [] steps) [
  | some e ↦ some e
  | none ↦
      elim (link_steps (λ n. any (has_name n) steps) steps
        (record { indeg = λ _. 0; adj = λ _. [] })) [
          | inl e ↦ some e
          | inr g ↦
              let queue = map (λ s. s.name) (select (λ s. g.indeg s.name == 0) steps) in
              if visit (length steps) g.adj g.indeg queue == length steps
              then none
              else some DagError.cycle
        ]
]
