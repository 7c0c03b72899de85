-- ===== src/Store/Dag/Waiting.antt =====
-- How the promise that a BLOCKED step waits for something passes to the next state of the table.
use quacker.Prelude.{◌≡◌, String, Bool, true, ◌⊎◌, inl, inr, Bool-cases, List, Memᴰ, subst}
use quacker.Table.{update, delete}
use quacker.Table.Laws.{mem-update, mem-delete}
use quacker.Store.Model.{Status, Step}
use quacker.Store.Dag.{Done, BlockedWait}

-- The statuses that the promise speaks of.
abbrev pub Settled : Step → Type 0
Settled s = (s.status ≡ Status.blocked) ⊎ (s.status ≡ Status.succeeded)

-- No step becomes BLOCKED or SUCCEEDED: the rows that are so now were there before.
abbrev pub NoneSettles : List Step → List Step → Type 0
NoneSettles xs ys = (y : Step) → Memᴰ y ys → Settled y → Memᴰ y xs

pub Done-back :
    {xs ys : List Step} {run_id name : String}
    → NoneSettles xs ys
    → Done ys run_id name
    → Done xs run_id name
Done-back none_settles d = record {
  step = d.step;
  mem = none_settles d.step d.mem (inr d.succeeded);
  home = d.home;
  named = d.named;
  succeeded = d.succeeded;
}

pub BlockedWait-back : {xs ys : List Step} → NoneSettles xs ys → BlockedWait xs → BlockedWait ys
BlockedWait-back none_settles waits s m blocked =
    let (d, dep, open_dep) = waits s (none_settles s m (inl blocked)) blocked in
    (d, dep, λ done. open_dep (Done-back none_settles done))

pub update-NoneSettles :
    (q : Step → Bool) (f : Step → Step) (xs : List Step)
    → ((x : Step) → q x ≡ true → Settled (f x) → ⊥)
    → NoneSettles xs (update q f xs)
update-NoneSettles q f xs never y m settled =
    let (x, n, e) = mem-update q f y xs m in
    elim (Bool-cases (q x)) [
      | inl hit ↦
          let same : y ≡ f x = rw hit at e in absurd (never x hit (subst Settled same settled))
      | inr miss ↦ let same : y ≡ x = rw miss at e in rw same n
    ]

pub delete-NoneSettles : (p : Step → Bool) (xs : List Step) → NoneSettles xs (delete p xs)
delete-NoneSettles p xs y m settled = (mem-delete p y xs m).0
