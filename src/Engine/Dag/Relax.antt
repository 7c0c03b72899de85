-- ===== src/Engine/Dag/Relax.antt =====
-- One pass of validateDAG's loop over the dependents of a name.
use quacker.Prelude.{
  ℕ, suc, ◌+◌, ◌-◌, ◌≡◌, refl, sym, ◌∙◌, String, Bool, true, false, not, ◌&&◌, List, [], ◌∷◌, ◌++◌,
  inl, inr, str_eq, eq_iff, if◌then◌else◌, Bool-cases, Memᴰ, arith, ap, leb, ◌==◌,
}
use quacker.Table.{count}
use quacker.Table.Laws.{count_member}
use quacker.Engine.Dag.{assign, relax}
use quacker.Engine.Dag.Edges.{occ, occ-snoc, differ}

abbrev pub bit : Bool → ℕ
bit b = if b then 1 else 0

pub relax-indeg :
    (ms : List String) (indeg : String → ℕ) (queue : List String) (y : String)
    → (relax ms indeg queue).0 y ≡ indeg y - occ y ms
unfolding relax count
relax-indeg [] indeg queue y = omega arith
relax-indeg (m ∷ ms) indeg queue y =
    let rest =
      relax-indeg ms (assign m (indeg m - 1) indeg)
        (if indeg m == 1 then queue ++ m ∷ [] else queue) y in
    elim (Bool-cases (str_eq m y)) [
      | inl e ↦
          let same = (eq_iff m y).0 e in
          let e' : str_eq y m ≡ true = (eq_iff y m).1 (sym same) in
          let at_m : indeg m ≡ indeg y = ap indeg same in rest ∙ rw (e, e') (omega (arith, at_m))
      | inr e ↦ rest ∙ rw (e, differ m y e) refl
    ]

pushed :
    (y m : String) (full : Bool) (queue : List String)
    → occ y (if full then queue ++ m ∷ [] else queue)
      ≡ occ y queue + (if full then (if str_eq y m then 1 else 0) else 0)
pushed y m true queue = occ-snoc y m queue ∙ ap (λ n. occ y queue + n) (unfold count in refl)
pushed y m false queue = omega arith

last_decrement :
    (i k q : ℕ)
    → q + (if i == 1 then 1 else 0) + bit (leb 1 (i - 1) && leb (i - 1) k)
      ≡ q + bit (leb 1 i && leb i (suc k))
last_decrement i k q = ground arith

-- A name joins the queue when its counter gets to 0.
pub relax-queue :
    (ms : List String) (indeg : String → ℕ) (queue : List String) (y : String)
    → occ y (relax ms indeg queue).1
      ≡ occ y queue + bit (leb 1 (indeg y) && leb (indeg y) (occ y ms))
unfolding relax count
relax-queue [] indeg queue y = ground arith
relax-queue (m ∷ ms) indeg queue y =
    let rest =
      relax-queue ms (assign m (indeg m - 1) indeg)
        (if indeg m == 1 then queue ++ m ∷ [] else queue) y in
    let push = pushed y m (indeg m == 1) queue in
    elim (Bool-cases (str_eq m y)) [
      | inl e ↦
          let same = (eq_iff m y).0 e in
          let e' : str_eq y m ≡ true = (eq_iff y m).1 (sym same) in
          let rest' = rw (e, push, e') at rest in
          rest' ∙ rw (e', ap indeg same) (last_decrement (indeg y) (occ y ms) (occ y queue))
      | inr e ↦
          let e' = differ m y e in
          let rest' = rw (e, push, e') at rest in rest' ∙ rw e' (ground arith)
    ]

-- What a count of the others leaves out is visited.
pub visited_dep :
    (done : String → Bool) (d : String) (deps : List String)
    → Memᴰ d deps
    → count (λ x. not (done x)) deps ≡ 0
    → done d ≡ true
visited_dep done d deps m h = elim (Bool-cases (done d)) [
  | inl e ↦ e
  | inr e ↦
      let le = count_member (λ x. not (done x)) d deps m (rw e refl) in
      absurd (omega (arith, le, h))
]
