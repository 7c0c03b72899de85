-- ===== src/Engine/Dag/Kahn.antt =====
-- The loop of validateDAG over its queue (Kahn's algorithm).
use quacker.Prelude.{
  ℕ, zero, suc, ◌+◌, ◌≤◌, ◌<◌, ◌≡◌, refl, sym, ◌∙◌, String, Bool, true, false, not, ◌||◌, List, [],
  ◌∷◌, length, inl, inr, str_eq, eq_iff, if◌then◌else◌, Bool-cases, Memᴰ, arith, subst, ◌==◌,
}
use quacker.Table.Laws.{count-length-le}
use quacker.Table.{count}
use quacker.Table.Laws.{count_member, count_cases}
use quacker.Engine.Requests.{StepReq}
use quacker.Engine.Dag.{assign, has_name, relax, visit}
use quacker.Engine.Dag.Edges.{occ, edges, edges-step, edges-unnamed, differ}
use quacker.Engine.Dag.Relax.{bit, relax-indeg, relax-queue, visited_dep}

module _ (steps : List StepReq) (unique : (n : String) → count (has_name n) steps ≤ 1) where
  -- The dependencies of a step that are not visited.
  abbrev waiting : (String → Bool) → StepReq → ℕ
  waiting done s = count (λ x. not (done x)) s.deps

  -- Where the loop stands when the names of `done` are visited, at times before `now`.
  pub record Visiting (adj : String → List String) (indeg : String → ℕ) (queue : List String)
      (done : String → Bool) (time : String → ℕ) (now : ℕ) : Type 0 where
    pub counter : (s : StepReq) → Memᴰ s steps → indeg s.name ≡ waiting done s
    pub queued :
        (x : String)
        → occ x queue + bit (done x) ≡ (if indeg x == 0 then count (has_name x) steps else 0)
    pub before : (x : String) → done x ≡ true → time x < now
    pub order :
        (s : StepReq)
        → Memᴰ s steps
        → done s.name ≡ true
        → (d : String) → Memᴰ d s.deps
        → (done d ≡ true) × (time d < time s.name)

  -- The graph's edges are the steps' dependencies.
  abbrev pub Linked : (String → List String) → Type 0
  Linked adj = (y x : String) → occ y (adj x) ≡ edges y x steps

  abbrev mark : String → (String → Bool) → String → Bool
  mark n done y = str_eq n y || done y

  waiting-mark :
      (n : String) (done : String → Bool) (deps : List String)
      → done n ≡ false
      → count (λ x. not (mark n done x)) deps + occ n deps ≡ count (λ x. not (done x)) deps
  unfolding count
  waiting-mark n done [] h = refl
  waiting-mark n done (d ∷ deps) h =
      let rest = waiting-mark n done deps h in
      elim (Bool-cases (str_eq n d)) [
        | inl e ↦
            let undone : done d ≡ false = subst (λ x. done x ≡ false) ((eq_iff n d).0 e) h in
            rw (e, undone) (omega (arith, rest))
        | inr e ↦ rw e (ground (arith, rest))
      ]

  marked :
      (n : String) (done : String → Bool) (xs : List StepReq)
      → done n ≡ false
      → count (λ s. done s.name) xs + count (has_name n) xs ≡ count (λ s. mark n done s.name) xs
  unfolding count
  marked n done [] h = refl
  marked n done (x ∷ xs) h =
      let rest = marked n done xs h in
      elim (Bool-cases (str_eq n x.name)) [
        | inl e ↦
            let undone : done x.name ≡ false =
              subst (λ x. done x ≡ false) ((eq_iff n x.name).0 e) h in
            rw (e, undone) (omega (arith, rest))
        | inr e ↦ rw e (ground (arith, rest))
      ]

  module _ {adj : String → List String} {indeg : String → ℕ} {n : String} {queue : List String}
      {done : String → Bool} {time : String → ℕ} {now : ℕ} (linked : Linked adj)
      (v : Visiting adj indeg (n ∷ queue) done time now) where
    -- The name at the head of the queue is a step's, is not visited, and waits for nothing.
    head_ready :
        (done n ≡ false) × (indeg n ≡ 0) × (occ n queue ≡ 0) × (count (has_name n) steps ≡ 1)
    unfolding count
    head_ready =
        let q = v.queued n in
        let le = unique n in
        let self = (eq_iff n n).1 refl in
        (
          ground (arith, q, le, self),
          ground (arith, q, le, self),
          ground (arith, q, le, self),
          ground (arith, q, le, self),
        )

    -- The edges from a name to a step are among what the step waits for.
    edges_waiting :
        (s : StepReq)
        → Memᴰ s steps
        → (occ s.name (adj n) ≡ occ n s.deps)
          × (waiting (mark n done) s + occ n s.deps ≡ indeg s.name)
    edges_waiting s m =
        let (undone, _, _, _) = head_ready in
        (
          linked s.name n ∙ edges-step s n steps m (unique s.name),
          waiting-mark n done s.deps undone ∙ sym (v.counter s m),
        )

    next_counter :
        (s : StepReq)
        → Memᴰ s steps
        → (relax (adj n) indeg queue).0 s.name ≡ waiting (mark n done) s
    next_counter s m =
        let (a, b) = edges_waiting s m in
        let i = relax-indeg (adj n) indeg queue s.name in omega (arith, a, b, i)

    next_queued :
        (x : String)
        → occ x (relax (adj n) indeg queue).1 + bit (mark n done x)
          ≡ (if (relax (adj n) indeg queue).0 x == 0 then count (has_name x) steps else 0)
    unfolding count
    next_queued x =
        let (undone, ready, once, one) = head_ready in
        let before = v.queued x in
        let q = relax-queue (adj n) indeg queue x in
        let i = relax-indeg (adj n) indeg queue x in
        elim (Bool-cases (str_eq n x)) [
          | inl e ↦
              let same = (eq_iff n x).0 e in
              let ready' : indeg x ≡ 0 = subst (λ x. indeg x ≡ 0) same ready in
              let once' : occ x queue ≡ 0 = subst (λ x. occ x queue ≡ 0) same once in
              let one' : count (has_name x) steps ≡ 1 =
                subst (λ x. count (has_name x) steps ≡ 1) same one in
              rw (q, i, e, ready', one', once') (ground arith)
          | inr e ↦
              let miss = differ n x e in
              let before' = rw miss at before in
              elim (count_cases (has_name x) steps) [
                | inl none_named ↦
                    let k : occ x (adj n) ≡ 0 = linked x n ∙ edges-unnamed x n steps none_named in
                    rw (q, i, e) (ground (arith, before', k, none_named))
                | inr (s, m, is_name) ↦
                    let (a, b) = edges_waiting s m in
                    let same = sym ((eq_iff x s.name).0 is_name) in
                    let a' : occ x (adj n) ≡ occ n s.deps =
                      subst (λ y. occ y (adj n) ≡ occ n s.deps) same a in
                    let b' : waiting (mark n done) s + occ n s.deps ≡ indeg x =
                      subst (λ y. waiting (mark n done) s + occ n s.deps ≡ indeg y) same b in
                    let c = count_member (has_name x) s steps m is_name in
                    let le = unique x in rw (q, i, e) (ground (arith, before', a', b', c, le))
              ]
        ]

    next_before : (x : String) → mark n done x ≡ true → assign n now time x < suc now
    next_before x h = elim (Bool-cases (str_eq n x)) [
      | inl e ↦ rw e (omega arith)
      | inr e ↦ let k = v.before x (rw e at h) in rw e (omega (arith, k))
    ]

    next_order :
        (s : StepReq)
        → Memᴰ s steps
        → mark n done s.name ≡ true
        → (d : String) → Memᴰ d s.deps
        → (mark n done d ≡ true) × (assign n now time d < assign n now time s.name)
    next_order s m h d k = elim (Bool-cases (str_eq n s.name)) [
      | inl e ↦
          let (_, ready, _, _) = head_ready in
          let none_left : waiting done s ≡ 0 =
            sym (v.counter s m) ∙ subst (λ x. indeg x ≡ 0) ((eq_iff n s.name).0 e) ready in
          let (other, hit) = visited d (visited_dep done d s.deps k none_left) in
          let earlier = v.before d (visited_dep done d s.deps k none_left) in
          (hit, rw (e, other) earlier)
      | inr e ↦
          let (was_done, earlier) = v.order s m (rw e at h) d k in
          let (other, hit) = visited d was_done in (hit, rw (e, other) earlier)
    ]
      where
        visited : (d : String) → done d ≡ true → (str_eq n d ≡ false) × (mark n done d ≡ true)
        visited d was_done = elim (Bool-cases (str_eq n d)) [
          | inl e ↦
              let (undone, _, _, _) = head_ready in
              let bad : done d ≡ false = subst (λ x. done x ≡ false) ((eq_iff n d).0 e) undone in
              absurd (ground (arith, bad, was_done))
          | inr e ↦ (e, rw (e, was_done) refl)
        ]

    next_visiting :
        Visiting adj
          (relax (adj n) indeg queue).0
          (relax (adj n) indeg queue).1
          (mark n done)
          (assign n now time)
          (suc now)
    next_visiting = record {
      counter = next_counter;
      queued = next_queued;
      before = next_before;
      order = next_order;
    }

    one_more : suc (count (λ s. done s.name) steps) ≡ count (λ s. mark n done s.name) steps
    one_more =
        let (undone, _, _, one) = head_ready in
        let sum = marked n done steps undone in omega (arith, one, sum)

  -- With fuel for the steps that are not visited, the loop runs until its queue is empty, and counts the
  -- steps that it visits.
  pub visit_all :
      (fuel : ℕ) {adj : String → List String} (linked : Linked adj) {indeg : String → ℕ}
      {queue : List String} {done : String → Bool} {time : String → ℕ} {now : ℕ}
      → Visiting adj indeg queue done time now
      → length steps ≤ count (λ s. done s.name) steps + fuel
      → (indeg' : String → ℕ) × (done' : String → Bool) × (time' : String → ℕ) × (now' : ℕ)
        × Visiting adj indeg' [] done' time' now'
        × (visit fuel adj indeg queue + count (λ s. done s.name) steps
            ≡ count (λ s. done' s.name) steps)
  unfolding visit
  visit_all zero linked {queue = []} v le = (_, _, _, _, v, omega arith)
  visit_all zero linked {queue = n ∷ queue} {done = done} v le =
      let more = one_more linked v in
      let most = count-length-le (λ s. mark n done s.name) steps in
      absurd (omega (arith, more, most, le))
  visit_all (suc fuel) linked {queue = []} v le = (_, _, _, _, v, omega arith)
  visit_all (suc fuel) linked {queue = n ∷ queue} v le =
      let more = one_more linked v in
      let (i, d, t, k, last, sum) =
        visit_all fuel linked (next_visiting linked v) (omega (arith, more, le)) in
      (i, d, t, k, last, omega (arith, more, sum))
