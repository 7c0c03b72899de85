-- ===== src/Engine/Dag/Edges.antt =====
-- The graph that validateDAG links, against the steps that it is linked from.
use quacker.Prelude.{all}
use quacker.Prelude.{
  ℕ, ◌+◌, ◌≤◌, ◌≡◌, refl, sym, ◌∙◌, String, Bool, true, false, List, [], ◌∷◌, ◌++◌, length, ◌⊎◌,
  inl, inr, str_eq, eq_iff, if◌then◌else◌, Bool-cases, Memᴰ, arith, ap, subst,
}
use quacker.Table.{count}
use quacker.Table.Laws.{count_member}
use quacker.Engine.Requests.{StepReq}
use quacker.Engine.Dag.{DagError, Graph, assign, has_name, link_deps, link_steps}

-- How often a name stands in a list.
abbrev pub occ : String → List String → ℕ
occ x xs = count (str_eq x) xs

pub occ-snoc : (x y : String) (xs : List String) → occ x (xs ++ y ∷ []) ≡ occ x xs + occ x (y ∷ [])
unfolding count
occ-snoc x y [] = omega arith
occ-snoc x y (z ∷ xs) = ground (arith, occ-snoc x y xs)

-- How often `y` depends on `x`.
unfoldable pub edges : String → String → List StepReq → ℕ
edges y x [] = 0
edges y x (s ∷ steps) =
    let rest = edges y x steps in if has_name y s then occ x s.deps + rest else rest

pub edges-unnamed :
    (y x : String) (steps : List StepReq) → count (has_name y) steps ≡ 0 → edges y x steps ≡ 0
unfolding edges count
edges-unnamed y x [] h = refl
edges-unnamed y x (s ∷ steps) h = ground (arith, edges-unnamed y x steps)

pub edges-step :
    (s : StepReq) (x : String) (steps : List StepReq)
    → Memᴰ s steps
    → count (has_name s.name) steps ≤ 1
    → edges s.name x steps ≡ occ x s.deps
unfolding edges count
edges-step s x [] m h = elim m [ ]
edges-step s x (t ∷ steps) (Memᴰ.head e) h =
    let named : has_name s.name t ≡ true = rw (← e) ((eq_iff s.name s.name).1 refl) in
    let none_left : count (has_name s.name) steps ≡ 0 = ground (arith, named) in
    let rest = edges-unnamed s.name x steps none_left in rw (named, rest, e) (omega arith)
edges-step s x (t ∷ steps) (Memᴰ.tail m) h =
    let some_left = count_member (has_name s.name) s steps m ((eq_iff s.name s.name).1 refl) in
    let other : has_name s.name t ≡ false = ground (arith, h, some_left) in
    let rest = edges-step s x steps m (ground (arith, h)) in rw other rest

occ_self : (x : String) → occ x (x ∷ []) ≡ 1
unfolding count
occ_self x = rw ((eq_iff x x).1 refl) refl

-- A failed comparison fails the other way round.
pub differ : (a b : String) → str_eq a b ≡ false → str_eq b a ≡ false
differ a b e = elim (Bool-cases (str_eq b a)) [
  | inl k ↦
      let k' : str_eq a b ≡ true = (eq_iff a b).1 (sym ((eq_iff b a).0 k)) in
      absurd (ground (arith, e, k'))
  | inr k ↦ k
]

-- adj[dep] = append(adj[dep], name) adds one edge.
occ-assign :
    (y x name dep : String) (adj : String → List String)
    → occ y (assign dep (adj dep ++ name ∷ []) adj x)
      ≡ occ y (adj x) + (if str_eq y name then (if str_eq x dep then 1 else 0) else 0)
occ-assign y x name dep adj = elim (Bool-cases (str_eq dep x)) [
  | inl e ↦
      let same = (eq_iff dep x).0 e in
      let e' : str_eq x dep ≡ true = (eq_iff x dep).1 (sym same) in
      let snoc = occ-snoc y name (adj dep) in
      let one : occ y (name ∷ []) ≡ (if str_eq y name then 1 else 0) = unfold count in refl in
      rw (e, e')
        (snoc
          ∙ subst
              (λ d.
                occ y (adj dep) + occ y (name ∷ [])
                ≡ occ y (adj d) + (if str_eq y name then 1 else 0))
              same (ap (λ n. occ y (adj dep) + n) one))
  | inr e ↦ let e' : str_eq x dep ≡ false = differ dep x e in rw (e, e') (ground arith)
]

link_deps-adj :
    (known : String → Bool) (name : String) (deps : List String) (g g' : Graph)
    → link_deps known name deps g ≡ inr g'
    → (y x : String)
    → (occ y (g'.adj x) ≡ occ y (g.adj x) + (if str_eq y name then occ x deps else 0))
      × (g'.indeg ≡ g.indeg)
      × all known deps ≡ true
unfolding link_deps count all
link_deps-adj known name [] g g' h y x =
    let same : g ≡ g' = cc in rw (← same) (ground arith, refl, refl)
link_deps-adj known name (d ∷ deps) g g' h y x =
    let added = record g { adj = assign d (g.adj d ++ name ∷ []) g.adj } in
    elim (Bool-cases (known d)) [
      | inl k ↦
          let (edges_left, indeg, rest) = link_deps-adj known name deps added g' (rw k at h) y x in
          let one = occ-assign y x name d g.adj in
          (ground (arith, edges_left, one), indeg, rw k rest)
      | inr k ↦ let bad : inl (DagError.unknown_dep name d) ≡ inr g' = rw k at h in cc
    ]

abbrev pub placed : StepReq → Graph → Graph
placed s g = record g { indeg = assign s.name (length s.deps) g.indeg }

-- A link of all steps is a link of the first and then of the others.
link_steps_first :
    (known : String → Bool) (s : StepReq) (steps : List StepReq) (g g' : Graph)
    → link_steps known (s ∷ steps) g ≡ inr g'
    → (m : Graph) × (link_deps known s.name s.deps (placed s g) ≡ inr m)
      × (link_steps known steps m ≡ inr g')
unfolding link_steps
link_steps_first known s steps g g' h = split (link_deps known s.name s.deps (placed s g)) refl
  where
    split :
        (r : DagError ⊎ Graph)
        → link_deps known s.name s.deps (placed s g) ≡ r
        → (m : Graph) × (link_deps known s.name s.deps (placed s g) ≡ inr m)
          × (link_steps known steps m ≡ inr g')
    split (inl e) k = let bad : inl e ≡ inr g' = rw (k, link_steps) at h in cc
    split (inr m) k = (m, k, rw (k, link_steps) at h)

pub link_steps-adj :
    (known : String → Bool) (steps : List StepReq) (g g' : Graph)
    → link_steps known steps g ≡ inr g'
    → (y x : String) → occ y (g'.adj x) ≡ occ y (g.adj x) + edges y x steps
unfolding link_steps edges
link_steps-adj known [] g g' h y x = let same : g ≡ g' = cc in rw (← same) (omega arith)
link_steps-adj known (s ∷ steps) g g' h y x =
    let (m, first, rest) = link_steps_first known s steps g g' h in
    let (here, _, _) = link_deps-adj known s.name s.deps (placed s g) m first y x in
    let later = link_steps-adj known steps m g' rest y x in ground (arith, here, later)

pub link_steps-known :
    (known : String → Bool) (steps : List StepReq) (g g' : Graph)
    → link_steps known steps g ≡ inr g'
    → (s : StepReq) → Memᴰ s steps
    → all known s.deps ≡ true
link_steps-known known [] g g' h s m = elim m [ ]
link_steps-known known (t ∷ steps) g g' h s (Memᴰ.head e) =
    let (m, first, rest) = link_steps_first known t steps g g' h in
    let (_, _, ok) = link_deps-adj known t.name t.deps (placed t g) m first "" "" in
    subst (λ x. all known x.deps ≡ true) (sym e) ok
link_steps-known known (t ∷ steps) g g' h s (Memᴰ.tail k) =
    let (m, first, rest) = link_steps_first known t steps g g' h in
    link_steps-known known steps m g' rest s k

link_steps-indeg_other :
    (known : String → Bool) (n : String) (steps : List StepReq) (g g' : Graph)
    → link_steps known steps g ≡ inr g'
    → count (has_name n) steps ≡ 0
    → g'.indeg n ≡ g.indeg n
unfolding link_steps count
link_steps-indeg_other known n [] g g' h none_named = let same : g ≡ g' = cc in rw same refl
link_steps-indeg_other known n (s ∷ steps) g g' h none_named =
    let (m, first, rest) = link_steps_first known s steps g g' h in
    let (_, same, _) = link_deps-adj known s.name s.deps (placed s g) m first "" "" in
    let miss : str_eq n s.name ≡ false = ground (arith, none_named) in
    let miss' : str_eq s.name n ≡ false = differ n s.name miss in
    link_steps-indeg_other known n steps m g' rest (ground (arith, none_named))
    ∙ ap (λ f. f n) same
    ∙ rw miss' refl

pub link_steps-indeg :
    (known : String → Bool) (s : StepReq) (steps : List StepReq) (g g' : Graph)
    → link_steps known steps g ≡ inr g'
    → Memᴰ s steps
    → count (has_name s.name) steps ≤ 1
    → g'.indeg s.name ≡ length s.deps
unfolding link_steps count
link_steps-indeg known s [] g g' h m le = elim m [ ]
link_steps-indeg known s (t ∷ steps) g g' h (Memᴰ.head e) le =
    let (m, first, rest) = link_steps_first known t steps g g' h in
    let (_, same, _) = link_deps-adj known t.name t.deps (placed t g) m first "" "" in
    let hit : str_eq t.name s.name ≡ true = (eq_iff _ _).1 (ap (λ x. x.name) (sym e)) in
    let hit' : str_eq s.name t.name ≡ true = (eq_iff _ _).1 (ap (λ x. x.name) e) in
    link_steps-indeg_other known s.name steps m g' rest (ground (arith, le, hit'))
    ∙ ap (λ f. f s.name) same
    ∙ rw hit (ap (λ x. length x.deps) (sym e))
link_steps-indeg known s (t ∷ steps) g g' h (Memᴰ.tail k) le =
    let (m, first, rest) = link_steps_first known t steps g g' h in
    link_steps-indeg known s steps m g' rest k (ground (arith, le))
