-- ===== src/Store/PurgeExamples.antt =====
-- The theorems on retention at a concrete database.
use quacker.Prelude.{refl, true, false, [], ◌∷◌, Memᴰ, str_eq, eq_iff, sym, ◌∙◌, any}
use quacker.Table.Distinct.{distinct, count-distinct-le}
use quacker.Store.Model.{Status, Run, Db, OnOk}
use quacker.Store.Purge.{PurgeOptions, purge_runs}
use quacker.Store.Purge.Cleared.{Cleared, purge_runs-Cleared}
use quacker.Store.Purge.Kept.{Keeps, purge_runs-Keeps}
use quacker.Store.Samples.{plain_run, plain_step, db_of}

abbrev old_run : Run
old_run = record (plain_run "old" Status.succeeded) { completed_at = 3 }

abbrev live_run : Run
live_run = plain_run "live" Status.running

abbrev aged_db : Db
aged_db = db_of (old_run ∷ live_run ∷ []) (
    plain_step "old/a" "old" "a" Status.succeeded []
    ∷ plain_step "live/a" "live" "a" Status.running []
    ∷ [])

abbrev nightly_purge : PurgeOptions
nightly_purge = record {
  before = 10;
  statuses = [];
  queue = "";
  exclude_dead_lettered = true;
  keep_logs = false;
  batch_size = 0;
}

purge_runs-Keeps_example : OnOk (λ p. Keeps aged_db live_run p.0) (purge_runs nightly_purge aged_db)
unfolding distinct any
purge_runs-Keeps_example =
    purge_runs-Keeps nightly_purge aged_db live_run
      (λ i.
        count-distinct-le (λ a b. str_eq a.id b.id) (λ x. str_eq x.id i) aged_db.runs
          (λ x y a b. (eq_iff x.id y.id).1 ((eq_iff x.id i).0 a ∙ sym ((eq_iff y.id i).0 b))) refl)
      (Memᴰ.tail (Memᴰ.head refl)) refl

purge_runs-Cleared_example :
    OnOk (λ p. Cleared nightly_purge p.0) (purge_runs nightly_purge aged_db)
purge_runs-Cleared_example = purge_runs-Cleared nightly_purge aged_db
