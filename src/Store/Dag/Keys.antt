-- ===== src/Store/Dag/Keys.antt =====
-- The keys of the steps table under updates and deletions, and the promise as a whole.
use quacker.Prelude.{◌≡◌, ap, ap₂, Bool, true, ◌&&◌, List, str_eq, arith}
use quacker.Table.{update, delete}
use quacker.Table.Laws.{count-update_same, count-delete-le}
use quacker.Store.Model.{Step}
use quacker.Store.Dag.{HasKeys, DepsDone, named_in}

pub HasKeys-update :
    (q : Step → Bool) (f : Step → Step) (xs : List Step)
    → ((x : Step) → q x ≡ true → (f x).id ≡ x.id)
    → ((x : Step) → q x ≡ true → (f x).run_id ≡ x.run_id)
    → ((x : Step) → q x ≡ true → (f x).name ≡ x.name)
    → HasKeys xs
    → HasKeys (update q f xs)
HasKeys-update q f xs same_id same_run same_name keys = record {
  ids = λ i.
      rw (count-update_same (λ s. str_eq s.id i) q f xs (λ x h. ap (λ n. str_eq n i) (same_id x h)))
        (keys.ids i);
  names = λ r n.
      rw
        (count-update_same (named_in r n) q f xs
          (λ x h. ap₂ (λ a b. str_eq a r && str_eq b n) (same_run x h) (same_name x h)))
        (keys.names r n);
}

pub HasKeys-delete : (p : Step → Bool) (xs : List Step) → HasKeys xs → HasKeys (delete p xs)
HasKeys-delete p xs keys = record {
  ids = λ i. omega (arith, keys.ids i, count-delete-le (λ s. str_eq s.id i) p xs);
  names = λ r n. omega (arith, keys.names r n, count-delete-le (named_in r n) p xs);
}

-- The steps table holds well-formed step graphs: its keys are unique, and a step that has been queued
-- has all of its dependencies done.
pub record IsDag (steps : List Step) : Type 0 where
  pub keys : HasKeys steps
  pub promise : DepsDone steps
