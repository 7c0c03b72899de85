-- ===== src/Engine/Dag/Correct.antt =====
-- What validateDAG accepts.
use quacker.Prelude.{◌↔◌, all-mem, mem-cons_cases}
use quacker.Prelude.{
  ℕ, zero, suc, ◌+◌, ◌≤◌, ◌<◌, ◌≡◌, refl, sym, ◌∙◌, String, Bool, true, false, not, List, [], ◌∷◌,
  any, length, Option, none, some, ◌⊎◌, inl, inr, str_eq, eq_iff, if◌then◌else◌, Bool-cases, Memᴰ,
  arith, ap, subst, ◌==◌, ==_iff,
}
use quacker.Table.Laws.{count-length-le}
use quacker.Table.{count}
use quacker.Prelude.{any-witness}
use quacker.Table.Laws.{count_zero, count_member}
use quacker.Engine.Requests.{StepReq}
use quacker.Engine.Dag.{DagError, Graph, has_name, check_names, link_steps, visit, validate_dag}
use quacker.Engine.Dag.Edges.{occ, edges, link_steps-known}
use quacker.Engine.Dag.Relax.{bit}
use quacker.Engine.Dag.Kahn.{visit_all}
use quacker.Engine.Dag.Names.{check_names-none, names_checked}
use quacker.Engine.Dag.Start.{roots, steps_linked, start}

-- Steps with names of their own whose dependencies are steps and have no cycle: every step has a rank
-- above its dependencies' ranks.
pub record IsWorkflow (steps : List StepReq) : Type 0 where
  pub named : (s : StepReq) → Memᴰ s steps → str_eq s.name "" ≡ false
  pub unique : (n : String) → count (has_name n) steps ≤ 1
  pub known :
      (s : StepReq) → Memᴰ s steps → (d : String) → Memᴰ d s.deps → any (has_name d) steps ≡ true
  pub rank : String → ℕ
  pub acyclic : (s : StepReq) → Memᴰ s steps → (d : String) → Memᴰ d s.deps → rank d < rank s.name

abbrev no_edges : Graph
no_edges = record { indeg = λ _. 0; adj = λ _. [] }

abbrev linked : List StepReq → DagError ⊎ Graph
linked steps = link_steps (λ n. any (has_name n) steps) steps no_edges

-- The three stages of an acceptance.
accepted :
    (steps : List StepReq)
    → validate_dag steps ≡ none
    → (check_names [] steps ≡ none)
      × (g : Graph) × (linked steps ≡ inr g)
      × (visit (length steps) g.adj g.indeg (roots g.indeg steps) ≡ length steps)
unfolding validate_dag
accepted steps h = names (check_names [] steps) refl
  where
    Stages : Type 0
    Stages =
        (check_names [] steps ≡ none)
        × (g : Graph) × (linked steps ≡ inr g)
        × (visit (length steps) g.adj g.indeg (roots g.indeg steps) ≡ length steps)

    links : check_names [] steps ≡ none → (r : DagError ⊎ Graph) → linked steps ≡ r → Stages
    links k (inl e) l = let bad : some e ≡ none = rw (k, l, validate_dag) at h in cc
    links k (inr g) l =
        elim (Bool-cases
          (visit (length steps) g.adj g.indeg (roots g.indeg steps) == length steps)) [
            | inl all_seen ↦ (k, g, l, (==_iff _ _).0 all_seen)
            | inr some_left ↦
                let bad : some DagError.cycle ≡ none = rw (k, l, some_left, validate_dag) at h in cc
          ]

    names : (o : Option DagError) → check_names [] steps ≡ o → Stages
    names (some e) k = let bad : some e ≡ none = rw (k, validate_dag) at h in cc
    names none k = links k (linked steps) refl

-- A loop that visits as many steps as there are visits every step.
all_visited :
    (steps : List StepReq) (done : String → Bool)
    → count (λ s. done s.name) steps ≡ length steps
    → (s : StepReq) → Memᴰ s steps
    → done s.name ≡ true
unfolding count
all_visited [] done h s m = elim m [ ]
all_visited (t ∷ steps) done h s m =
    let most = count-length-le (λ s. done s.name) steps in
    let here : done t.name ≡ true = ground (arith, h, most) in
    elim (mem-cons_cases m) [
      | inl same ↦ rw same here
      | inr later ↦ all_visited steps done (ground (arith, h, here)) s later
    ]

-- A workflow that validateDAG accepts has names that are not empty and differ, dependencies among its own
-- steps, and no cycle: a rank puts every step after its dependencies.
pub validate_dag-IsWorkflow : (steps : List StepReq) → validate_dag steps ≡ none → IsWorkflow steps
validate_dag-IsWorkflow steps h =
    let (checked, g, links, seen) = accepted steps h in
    let (named, unique) = check_names-none [] steps checked in
    let one_each : (n : String) → count (has_name n) steps ≤ 1 =
      λ n. let le = unique n in omega (arith, le) in
    let (edges, first) = start steps one_each g links in
    let (indeg, done, time, now, last, sum) =
      visit_all steps one_each (length steps) edges first (omega arith) in
    let everything =
      all_visited steps done
        (let z = count_zero (λ s. false) steps (λ s. refl) in omega (arith, z, seen, sum)) in
    record {
      named = named;
      unique = one_each;
      known = λ s m d k. all-mem _ s.deps (link_steps-known _ steps _ g links s m) d k;
      rank = time;
      acyclic = λ s m d k. (last.order s m (everything s m) d k).1;
    }

nothing_left :
    (done : String → Bool) (deps : List String)
    → ((d : String) → Memᴰ d deps → done d ≡ true)
    → count (λ x. not (done x)) deps ≡ 0
unfolding count
nothing_left done [] h = refl
nothing_left done (d ∷ deps) h =
    rw (h d (Memᴰ.head refl)) (nothing_left done deps (λ x k. h x (Memᴰ.tail k)))

count_all :
    (done : String → Bool) (steps : List StepReq)
    → ((s : StepReq) → Memᴰ s steps → done s.name ≡ true)
    → count (λ s. done s.name) steps ≡ length steps
unfolding count
count_all done [] h = refl
count_all done (s ∷ steps) h =
    rw (h s (Memᴰ.head refl)) (ap suc (count_all done steps (λ t m. h t (Memᴰ.tail m))))

-- If every dependency has a lower rank, and a step is visited once it waits for nothing, all are visited.
ranked_visited :
    (steps : List StepReq) (w : IsWorkflow steps) (indeg : String → ℕ) (done : String → Bool)
    → ((s : StepReq) → Memᴰ s steps → indeg s.name ≡ count (λ x. not (done x)) s.deps)
    → ((s : StepReq) → Memᴰ s steps → indeg s.name ≡ 0 → done s.name ≡ true)
    → (n : ℕ) (s : StepReq) → Memᴰ s steps
    → w.rank s.name < n
    → done s.name ≡ true
ranked_visited steps w indeg done counter ready zero s m lt = absurd (omega (arith, lt))
ranked_visited steps w indeg done counter ready (suc n) s m lt = ready s m (
    counter s m
    ∙ nothing_left done s.deps (λ d k.
      let (t, m', is_name) = any-witness (has_name d) steps (w.known s m d k) in
      let same = (eq_iff d t.name).0 is_name in
      let less = w.acyclic s m d k in
      let less' : w.rank t.name < n = subst (λ x. w.rank x < n) same (omega (arith, less, lt)) in
      subst (λ x. done x ≡ true) (sym same)
        (ranked_visited steps w indeg done counter ready n t m' less')))

-- validateDAG refuses no workflow whose steps have names of their own, known dependencies and no cycle.
pub validate_dag-accepts : (steps : List StepReq) → IsWorkflow steps → validate_dag steps ≡ none
unfolding validate_dag count any
validate_dag-accepts steps w =
    let checked = names_checked [] steps w.named (λ n. let le = w.unique n in omega (arith, le)) in
    let (g, links) = steps_linked (λ n. any (has_name n) steps) steps no_edges w.known in
    let (edges, first) = start steps w.unique g links in
    let (indeg, done, time, now, last, sum) =
      visit_all steps w.unique (length steps) edges first (omega arith) in
    let everything = count_all done steps (λ s m.
      ranked_visited steps w indeg done last.counter
        (λ t k z.
          let q = last.queued t.name in
          let c = count_member (has_name t.name) t steps k ((eq_iff _ _).1 refl) in
          ready_done (indeg t.name) (done t.name) _ q c z)
        (suc (w.rank s.name)) s m (omega arith)) in
    let z = count_zero (λ s. false) steps (λ s. refl) in
    let seen : (visit (length steps) g.adj g.indeg (roots g.indeg steps) == length steps) ≡ true =
      (==_iff _ _).1 (omega (arith, z, sum, everything)) in
    rw (checked, links, seen, validate_dag) refl
  where
    ready_done :
        (i : ℕ) (b : Bool) (c : ℕ)
        → occ "" [] + bit b ≡ (if i == 0 then c else 0)
        → 1 ≤ c
        → i ≡ 0
        → b ≡ true
    ready_done i b c q le z = ground (arith, q, le, z)

-- validateDAG accepts exactly the workflows: it returns no error if and only if every step has a name of its
-- own that is not empty, every dependency names a step, and the dependencies have no cycle.
pub validate_dag_iff : (steps : List StepReq) → (validate_dag steps ≡ none) ↔ IsWorkflow steps
validate_dag_iff steps = (validate_dag-IsWorkflow steps, validate_dag-accepts steps)
