-- ===== src/Workflow.antt =====
-- Workflow groups (workflow.go): NewGroupWorkflow puts a group's steps after the steps of the groups that it
-- waits for. A nil group is none.
use native.Mathlib.Nat.{zero-add}
use quacker.Prelude.{
  ℕ, suc, ◌+◌, ◌∙◌, ap, get_elem?, length, length-append, length-map, ◌≡◌, refl, subst, String,
  true, false, not, ◌&&◌, List, [], ◌∷◌, ◌++◌, map, any, Option, none, some, str_eq, eq_iff,
  if◌then◌else◌, inl, inr, Bool-cases, Option-cases, Memᴰ, mem-cons_cases, mem-append_left,
  mem-append_right, arith, ◌⊎◌,
}
use quacker.Engine.Requests.{StepReq}

pub record Group : Type 0 where
  pub name : String
  pub steps : List StepReq
  pub after : List String

pub record RunGroup : Type 0 where
  pub name : String
  pub deps : List String
  pub steps : List String

pub record GroupWorkflow : Type 0 where
  pub steps : List StepReq
  pub groups : List RunGroup

-- dedupStrings: the first of equal texts stays.
unfoldable pub dedup_after : List String → List String → List String
dedup_after seen [] = []
dedup_after seen (x ∷ xs) =
    let fresh = x ∷ dedup_after (x ∷ seen) xs in
    let rest = dedup_after seen xs in if any (str_eq x) seen then rest else fresh

unfoldable pub dedup_strings : List String → List String
unfolding dedup_after
dedup_strings xs = dedup_after [] xs

-- The map byName: a later group of a name replaces an earlier one, and "" is no key.
unfoldable pub by_name : List (Option Group) → String → Option Group
by_name [] name = none
by_name (none ∷ groups) name = by_name groups name
by_name (some g ∷ groups) name = elim (by_name groups name) [
  | some later ↦ some later
  | none ↦ if not (str_eq g.name "") && str_eq g.name name then some g else none
]

abbrev pub step_names : List StepReq → List String
step_names steps = map (λ s. s.name) steps

-- The steps of the groups that are waited for.
unfoldable pub dep_steps : List (Option Group) → List String → List String
unfolding by_name
dep_steps groups [] = []
dep_steps groups (dep ∷ deps) = elim (by_name groups dep) [
  | none ↦ dep_steps groups deps
  | some dg ↦ step_names dg.steps ++ dep_steps groups deps
]

unfoldable pub placed_step : List String → StepReq → StepReq
unfolding dedup_strings
placed_step deps s = record s { deps = dedup_strings (s.deps ++ deps) }

abbrev pub group_deps : List (Option Group) → Group → List String
group_deps groups g = dedup_strings (dep_steps groups g.after)

-- The second loop.
unfoldable pub place_groups : List (Option Group) → List (Option Group) → GroupWorkflow
unfolding dep_steps placed_step dedup_strings
place_groups groups [] = record { steps = []; groups = [] }
place_groups groups (none ∷ gs) = place_groups groups gs
place_groups groups (some g ∷ gs) =
    let rest = place_groups groups gs in
    record {
      steps = map (placed_step (group_deps groups g)) g.steps ++ rest.steps;
      groups = record { name = g.name; deps = g.after; steps = step_names g.steps } ∷ rest.groups;
    }

-- NewGroupWorkflow
unfoldable pub new_group_workflow : List (Option Group) → GroupWorkflow
unfolding place_groups
new_group_workflow groups = place_groups groups groups

mem-dedup_after :
    (x : String) (seen xs : List String)
    → Memᴰ x xs
    → any (str_eq x) seen ≡ false
    → Memᴰ x (dedup_after seen xs)
unfolding dedup_after any
mem-dedup_after x seen [] m h = elim m [ ]
mem-dedup_after x seen (y ∷ xs) m h = elim (Bool-cases (str_eq x y)) [
  | inl e ↦
      let same = (eq_iff x y).0 e in
      let fresh : any (str_eq y) seen ≡ false = subst (λ z. any (str_eq z) seen ≡ false) same h in
      rw fresh (Memᴰ.head same)
  | inr e ↦ elim (mem-cons_cases m) [
    | inl same ↦
        let hit : str_eq x y ≡ true = (eq_iff x y).1 same in absurd (ground (arith, hit, e))
    | inr later ↦ elim (Bool-cases (any (str_eq y) seen)) [
      | inl k ↦ rw k (mem-dedup_after x seen xs later h)
      | inr k ↦
          let h' : any (str_eq x) (y ∷ seen) ≡ false = ground (arith, e, h) in
          rw k (Memᴰ.tail (mem-dedup_after x (y ∷ seen) xs later h'))
    ]
  ]
]

mem-dedup_strings : (x : String) (xs : List String) → Memᴰ x xs → Memᴰ x (dedup_strings xs)
unfolding dedup_strings any
mem-dedup_strings x xs m = mem-dedup_after x [] xs m refl

mem-dep_steps :
    (groups : List (Option Group)) (after : List String) (dep : String) (dg : Group) (n : String)
    → Memᴰ dep after
    → by_name groups dep ≡ some dg
    → Memᴰ n (step_names dg.steps)
    → Memᴰ n (dep_steps groups after)
unfolding dep_steps
mem-dep_steps groups [] dep dg n m e k = elim m [ ]
mem-dep_steps groups (d ∷ after) dep dg n m e k = elim (mem-cons_cases m) [
  | inl same ↦
      let e' : by_name groups d ≡ some dg = subst (λ x. by_name groups x ≡ some dg) same e in
      rw (e', dep_steps) (mem-append_left n (step_names dg.steps) (dep_steps groups after) k)
  | inr later ↦
      let rest = mem-dep_steps groups after dep dg n later e k in
      elim (Option-cases (by_name groups d)) [
        | inl z ↦ rw (z, dep_steps) rest
        | inr (g, z) ↦ rw (z, dep_steps) (mem-append_right n (step_names g.steps) _ rest)
      ]
]

-- How many steps groups have.
abbrev pub steps_in : List (Option Group) → ℕ
steps_in [] = 0
steps_in (none ∷ gs) = steps_in gs
steps_in (some g ∷ gs) = length g.steps + steps_in gs

suc-add : (a b : ℕ) → suc a + b ≡ suc (a + b)
suc-add a b = omega arith

get_elem?-after :
    {A : Type 0} (xs ys : List A) (k : ℕ) → get_elem? (xs ++ ys) (length xs + k) ≡ get_elem? ys k
get_elem?-after [] ys k = ap (get_elem? ys) (omega arith)
get_elem?-after (x ∷ xs) ys k = rw (suc-add (length xs) k) (get_elem?-after xs ys k)

get_elem?-map :
    {A B : Type 0} (f : A → B) (ps qs : List A) (x : A) (ys : List B)
    → get_elem? (map f (ps ++ x ∷ qs) ++ ys) (length ps) ≡ some (f x)
get_elem?-map f [] qs x ys = refl
get_elem?-map f (p ∷ ps) qs x ys = get_elem?-map f ps qs x ys

length-place_groups :
    (groups gs : List (Option Group)) → length (place_groups groups gs).steps ≡ steps_in gs
unfolding place_groups
length-place_groups groups [] = refl
length-place_groups groups (none ∷ gs) = length-place_groups groups gs
length-place_groups groups (some g ∷ gs) = omega (
  arith,
  length-append {0} (map (placed_step (group_deps groups g)) g.steps)
      (place_groups groups gs).steps,
  length-map (placed_step (group_deps groups g)) g.steps,
  length-place_groups groups gs,
)

place_groups_at :
    (groups pre post : List (Option Group)) (g : Group) (ps qs : List StepReq) (s : StepReq)
    → g.steps ≡ ps ++ s ∷ qs
    → get_elem? (place_groups groups (pre ++ some g ∷ post)).steps (steps_in pre + length ps)
      ≡ some (placed_step (group_deps groups g) s)
unfolding place_groups
place_groups_at groups [] post g ps qs s e =
    let f = placed_step (group_deps groups g) in
    ap (get_elem? (map f g.steps ++ (place_groups groups post).steps)) (zero-add (length ps))
    ∙ ap (λ l. get_elem? (map f l ++ (place_groups groups post).steps) (length ps)) e
    ∙ get_elem?-map f ps qs s (place_groups groups post).steps
place_groups_at groups (none ∷ pre) post g ps qs s e = place_groups_at groups pre post g ps qs s e
place_groups_at groups (some h ∷ pre) post g ps qs s e =
    let f = placed_step (group_deps groups h) in
    let rest = (place_groups groups (pre ++ some g ∷ post)).steps in
    ap (get_elem? (map f h.steps ++ rest)) (omega (arith, length-map f h.steps))
    ∙ get_elem?-after (map f h.steps) rest (steps_in pre + length ps)
    ∙ place_groups_at groups pre post g ps qs s e

-- A name that a group's step waits for: one that the step names itself, or a step of a group that the group
-- names.
abbrev pub Awaits : List (Option Group) → Group → StepReq → String → Type 0
Awaits groups g s n =
    Memᴰ n s.deps
    ⊎ ((dep : String) × (dg : Group) × Memᴰ dep g.after
        × (by_name groups dep ≡ some dg)
        × Memᴰ n (step_names dg.steps))

-- A group runs after the groups it names: the workflow has as many steps as its groups together, and the
-- step at the place of a group's step, in the order of the groups and of their steps, has that step's name
-- and depends on each name that the step itself depends on and on each step of a group that its group names.
pub new_group_workflow_after :
    (pre post : List (Option Group)) (g : Group) (ps qs : List StepReq) (s : StepReq) (n : String)
    → g.steps ≡ ps ++ s ∷ qs
    → Awaits (pre ++ some g ∷ post) g s n
    → let groups = pre ++ some g ∷ post in
      let workflow = new_group_workflow groups in
      (length workflow.steps ≡ steps_in groups)
      × (s' : StepReq) × (get_elem? workflow.steps (steps_in pre + length ps) ≡ some s')
      × (s'.name ≡ s.name)
      × Memᴰ n s'.deps
unfolding new_group_workflow placed_step
new_group_workflow_after pre post g ps qs s n at awaits =
    let groups = pre ++ some g ∷ post in
    let deps = group_deps groups g in
    let all_deps : Memᴰ n (s.deps ++ deps) = elim awaits [
      | inl own ↦ mem-append_left n s.deps deps own
      | inr (dep, dg, waits, found, theirs) ↦ mem-append_right n s.deps deps (
          mem-dedup_strings n (dep_steps groups g.after)
            (mem-dep_steps groups g.after dep dg n waits found theirs))
    ] in
    (
      length-place_groups groups groups,
      placed_step deps s,
      place_groups_at groups pre post g ps qs s at,
      refl,
      mem-dedup_strings n (s.deps ++ deps) all_deps,
    )
