-- ===== src/Engine/Dag/Start.antt =====
-- The second loop of validateDAG, and where its last loop starts.
use quacker.Prelude.{
  ℕ, suc, ◌≤◌, ◌≡◌, refl, sym, ◌∙◌, String, Bool, true, false, not, List, [], ◌∷◌, map, ◌++◌, any,
  length, inl, inr, str_eq, eq_iff, if◌then◌else◌, Bool-cases, Memᴰ, arith, ap, ◌==◌,
}
use quacker.Table.{count, select}
use quacker.Engine.Requests.{StepReq}
use quacker.Engine.Dag.{Graph, has_name, link_deps, link_steps, assign}
use quacker.Engine.Dag.Edges.{occ, link_steps-adj, link_steps-indeg, placed}
use quacker.Engine.Dag.Kahn.{Visiting, Linked}

deps_linked :
    (known : String → Bool) (name : String) (deps : List String) (g : Graph)
    → ((d : String) → Memᴰ d deps → known d ≡ true)
    → (g' : Graph) × (link_deps known name deps g ≡ inr g')
unfolding link_deps
deps_linked known name [] g h = (g, refl)
deps_linked known name (d ∷ deps) g h =
    let (g', rest) =
      deps_linked known name deps (record g { adj = assign d (g.adj d ++ name ∷ []) g.adj })
        (λ x m. h x (Memᴰ.tail m)) in
    (g', simp (h d (Memᴰ.head refl)) rest)

pub steps_linked :
    (known : String → Bool) (steps : List StepReq) (g : Graph)
    → ((s : StepReq) → Memᴰ s steps → (d : String) → Memᴰ d s.deps → known d ≡ true)
    → (g' : Graph) × (link_steps known steps g ≡ inr g')
unfolding link_steps
steps_linked known [] g h = (g, refl)
steps_linked known (s ∷ steps) g h =
    let (m, first) = deps_linked known s.name s.deps (placed s g) (h s (Memᴰ.head refl)) in
    let (g', rest) = steps_linked known steps m (λ t k. h t (Memᴰ.tail k)) in
    (g', rw (first, link_steps) rest)

-- The queue that the loop starts from.
abbrev pub roots : (String → ℕ) → List StepReq → List String
roots indeg steps = map (λ s. s.name) (select (λ s. indeg s.name == 0) steps)

occ-roots :
    (indeg : String → ℕ) (x : String) (steps : List StepReq)
    → occ x (roots indeg steps) ≡ (if indeg x == 0 then count (has_name x) steps else 0)
unfolding select count
occ-roots indeg x [] = elim (Bool-cases (indeg x == 0)) [ inl e ↦ rw e refl | inr e ↦ rw e refl ]
occ-roots indeg x (s ∷ steps) =
    let rest = occ-roots indeg x steps in
    elim (Bool-cases (str_eq x s.name)) [
      | inl e ↦
          let same : indeg x ≡ indeg s.name = ap indeg ((eq_iff x s.name).0 e) in
          elim (Bool-cases (indeg s.name == 0)) [
            | inl z ↦ simp (same, z, e) (ap suc (rest ∙ rw (same, z) refl))
            | inr z ↦ simp (same, z, e) (rest ∙ rw (same, z) refl)
          ]
      | inr e ↦ elim (Bool-cases (indeg s.name == 0)) [
        | inl z ↦ simp (z, e) rest
        | inr z ↦ simp (z, e) rest
      ]
    ]

count-true : (deps : List String) → count (λ x. not false) deps ≡ length deps
unfolding count
count-true [] = refl
count-true (d ∷ deps) = omega (arith, count-true deps)

pub start :
    (steps : List StepReq) (unique : (n : String) → count (has_name n) steps ≤ 1) (g : Graph)
    → link_steps (λ n. any (has_name n) steps) steps (record { indeg = λ _. 0; adj = λ _. [] })
      ≡ inr g
    → Linked steps unique g.adj
      × Visiting steps unique g.adj g.indeg (roots g.indeg steps) (λ _. false) (λ _. 0) 0
unfolding count
start steps unique g h = (
  λ y x. link_steps-adj _ steps _ g h y x ∙ omega arith,
  record {
    counter = λ s m. link_steps-indeg _ s steps _ g h m (unique s.name) ∙ sym (count-true s.deps);
    queued = λ x. let k = occ-roots g.indeg x steps in omega (arith, k);
    before = λ x e. cc;
    order = λ s m e. cc;
  },
)
