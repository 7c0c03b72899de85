-- ===== src/Store/Dag/Evolution.antt =====
-- How the dependency promises pass from one state of the steps table to the next.
use quacker.Prelude.{
  ◌≡◌, refl, sym, ◌∙◌, String, Bool, true, false, ◌⊎◌, inl, inr, Bool-cases, List, Memᴰ, subst,
}
use quacker.Table.{update, delete}
use quacker.Table.Laws.{mem-update, mem-update_intro, mem-delete, mem-delete_intro}
use quacker.Store.Model.{Status, Step}
use quacker.Store.Dag.{Done, is_launched, DepsDone}

-- A row and what it becomes.
pub record Keeps (s t : Step) : Type 0 where
  pub id : t.id ≡ s.id
  pub run_id : t.run_id ≡ s.run_id
  pub name : t.name ≡ s.name
  pub depends_on : t.depends_on ≡ s.depends_on
  pub succeeded : s.status ≡ Status.succeeded → t.status ≡ Status.succeeded

pub Keeps-refl : (s : Step) → Keeps s s
Keeps-refl s = record {
  id = refl;
  run_id = refl;
  name = refl;
  depends_on = refl;
  succeeded = λ e. e;
}

pub Keeps-trans : {s t u : Step} → Keeps s t → Keeps t u → Keeps s u
Keeps-trans a b = record {
  id = b.id ∙ a.id;
  run_id = b.run_id ∙ a.run_id;
  name = b.name ∙ a.name;
  depends_on = b.depends_on ∙ a.depends_on;
  succeeded = λ e. b.succeeded (a.succeeded e);
}

-- Every row becomes a row, and every row was one; `R` says what may happen to it.
pub record Evolves (R : Step → Step → Type 0) (xs ys : List Step) : Type 0 where
  pub forth : (x : Step) → Memᴰ x xs → (y : Step) × Memᴰ y ys × R x y
  pub back : (y : Step) → Memᴰ y ys → (x : Step) × Memᴰ x xs × R x y

pub update-Evolves :
    (R : Step → Step → Type 0) (q : Step → Bool) (f : Step → Step) (xs : List Step)
    → ((x : Step) → Memᴰ x xs → q x ≡ false → R x x)
    → ((x : Step) → Memᴰ x xs → q x ≡ true → R x (f x))
    → Evolves R xs (update q f xs)
update-Evolves R q f xs old new = record {
  forth = λ x m.
      let n = mem-update_intro q f x xs m in
      elim (Bool-cases (q x)) [
        | inl hit ↦ (f x, rw hit at n, new x m hit)
        | inr miss ↦ (x, rw miss at n, old x m miss)
      ];
  back = λ y m. from y m;
}
  where
    from : (y : Step) → Memᴰ y (update q f xs) → (x : Step) × Memᴰ x xs × R x y
    from y m =
        let (x, n, e) = mem-update q f y xs m in
        elim (Bool-cases (q x)) [
          | inl hit ↦ (x, n, subst (R x) (sym (rw hit at e)) (new x n hit))
          | inr miss ↦ (x, n, subst (R x) (sym (rw miss at e)) (old x n miss))
        ]

pub Done-evolve :
    {xs ys : List Step} {run_id name : String}
    → ((x : Step) → Memᴰ x xs → (y : Step) × Memᴰ y ys × Keeps x y)
    → Done xs run_id name
    → Done ys run_id name
Done-evolve forth d =
    let (y, m, k) = forth d.step d.mem in
    record {
      step = y;
      mem = m;
      home = k.run_id ∙ d.home;
      named = k.name ∙ d.named;
      succeeded = k.succeeded d.succeeded;
    }

-- A row keeps what it is, and is launched only if it was, or if its dependencies are done.
pub record Launches (xs : List Step) (s t : Step) : Type 0 where
  pub keeps : Keeps s t
  pub launch :
      is_launched t.status ≡ true
      → (is_launched s.status ≡ true) ⊎ ((d : String) → Memᴰ d s.depends_on → Done xs s.run_id d)

pub DepsDone-evolve : {xs ys : List Step} → Evolves (Launches xs) xs ys → DepsDone xs → DepsDone ys
DepsDone-evolve {xs} {ys} e done y m launched d dep =
    let (x, n, l) = e.back y m in
    let k = l.keeps in
    let dep' : Memᴰ d x.depends_on = rw k.depends_on at dep in
    let before : Done xs x.run_id d = elim (l.launch launched) [
      | inl was ↦ done x n was d dep'
      | inr ready ↦ ready d dep'
    ] in
    rw k.run_id (Done-evolve (λ z o. let (w, p, r) = e.forth z o in (w, p, r.keeps)) before)

-- Rows that go take whole runs along.
pub DepsDone-delete :
    (p : Step → Bool) (xs : List Step)
    → ((s t : Step) → s.run_id ≡ t.run_id → p s ≡ p t)
    → DepsDone xs
    → DepsDone (delete p xs)
DepsDone-delete p xs whole done s m launched d dep =
    let (n, kept) = mem-delete p s xs m in
    let before = done s n launched d dep in
    record {
      step = before.step;
      mem = mem-delete_intro p before.step xs before.mem (whole before.step s before.home ∙ kept);
      home = before.home;
      named = before.named;
      succeeded = before.succeeded;
    }

pub Evolves-trans :
    {xs ys zs : List Step} → Evolves Keeps xs ys → Evolves Keeps ys zs → Evolves Keeps xs zs
Evolves-trans a b = record {
  forth =
      λ x m. let (y, n, k) = a.forth x m in let (z, o, l) = b.forth y n in (z, o, Keeps-trans k l);
  back = λ z m. let (y, n, k) = b.back z m in let (x, o, l) = a.back y n in (x, o, Keeps-trans l k);
}

pub Evolves-Keeps : {base xs ys : List Step} → Evolves (Launches base) xs ys → Evolves Keeps xs ys
Evolves-Keeps e = record {
  forth = λ x m. let (y, n, l) = e.forth x m in (y, n, l.keeps);
  back = λ y m. let (x, n, l) = e.back y m in (x, n, l.keeps);
}

pub Evolves-refl : (xs : List Step) → Evolves Keeps xs xs
Evolves-refl xs = record { forth = λ x m. (x, m, Keeps-refl x); back = λ x m. (x, m, Keeps-refl x) }

pub Launches-refl : (base : List Step) (s : Step) → Launches base s s
Launches-refl base s = record { keeps = Keeps-refl s; launch = λ h. inl h }
