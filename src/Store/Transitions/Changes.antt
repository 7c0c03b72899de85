-- ===== src/Store/Transitions/Changes.antt =====
-- What a transaction does to the steps table: rows are set or go, run by run. `R` says what may become
-- of a row.
use quacker.Prelude.{
  ◌≡◌, sym, ◌≤◌, ap, ◌∙◌, String, Bool, true, List, str_eq, ℕ, arith, &&-true, &&-intro, subst,
}
use quacker.Table.{update, delete, count}
use quacker.Table.Laws.{
  count-update_same, count-update_mono, count-delete-le, mem-update_all, mem-delete,
}
use quacker.Store.Model.{Status, is_iff, Step}
use quacker.Store.Gates.{runs_with_key}
use quacker.Store.Claim.KeyLimit.{HasUniqueIds, HasLimit}

pub data Changes (R : Step → Step → Type 0) (xs : List Step) : List Step → Type 0 where
  stay : Changes R xs xs
  set :
      {ys : List Step} (q : Step → Bool) (f : Step → Step)
      → ((x : Step) → q x ≡ true → R x (f x))
      → Changes R xs ys
      → Changes R xs (update q f ys)
  drop_rows : {ys : List Step} (p : Step → Bool) → Changes R xs ys → Changes R xs (delete p ys)

pub Changes-trans :
    {R : Step → Step → Type 0} {xs ys zs : List Step}
    → Changes R xs ys
    → Changes R ys zs
    → Changes R xs zs
Changes-trans a stay = a
Changes-trans a (set q f h b) = set q f h (Changes-trans a b)
Changes-trans a (drop_rows p b) = drop_rows p (Changes-trans a b)

-- The row is not started, and keeps its id and its concurrency key.
pub record NoStart (s t : Step) : Type 0 where
  pub id : t.id ≡ s.id
  pub concurrency_key : t.concurrency_key ≡ s.concurrency_key
  pub key_limit : t.key_limit ≡ s.key_limit
  pub running : t.status ≡ Status.running → s.status ≡ Status.running

pub Changes-ids : {xs ys : List Step} → Changes NoStart xs ys → HasUniqueIds xs → HasUniqueIds ys
Changes-ids stay ids = ids
Changes-ids (set {ys = ys} q f h c) ids = λ i.
    rw (count-update_same (λ s. str_eq s.id i) q f ys (λ x k. ap (λ n. str_eq n i) (h x k).id))
      (Changes-ids c ids i)
Changes-ids (drop_rows {ys = ys} p c) ids =
    λ i. omega (arith, count-delete-le (λ s. str_eq s.id i) p ys, Changes-ids c ids i)

pub Changes-limits :
    {xs ys : List Step} (key : String) (limit : ℕ)
    → Changes NoStart xs ys
    → HasLimit key limit xs
    → HasLimit key limit ys
Changes-limits key limit stay h = h
Changes-limits key limit (set {ys = ys} q f k c) h =
    mem-update_all (λ s. s.concurrency_key ≡ key → s.key_limit ≡ limit) q f ys
      (Changes-limits key limit c h)
      (λ x m hit e.
        let r = k x hit in
        r.key_limit ∙ Changes-limits key limit c h x m (sym r.concurrency_key ∙ e))
Changes-limits key limit (drop_rows {ys = ys} p c) h =
    λ s m. Changes-limits key limit c h s (mem-delete p s ys m).0

pub count-Changes-le :
    {xs ys : List Step} (key : String)
    → Changes NoStart xs ys
    → count (runs_with_key key) ys ≤ count (runs_with_key key) xs
count-Changes-le key stay = omega arith
count-Changes-le key (set {ys = ys} q f k c) = omega (
  arith,
  count-update_mono (runs_with_key key) q f ys (λ x hit runs.
      let r = k x hit in
      let (same, running) = &&-true _ _ runs in
      &&-intro _ _ (subst (λ n. str_eq n key ≡ true) r.concurrency_key same) (
        (is_iff Status.running x.status).1
          (r.running ((is_iff Status.running (f x).status).0 running)))),
  count-Changes-le key c,
)
count-Changes-le key (drop_rows {ys = ys} p c) =
    omega (arith, count-delete-le (runs_with_key key) p ys, count-Changes-le key c)
