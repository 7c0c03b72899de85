-- ===== src/Store/Enqueue/Unique.antt =====
-- The unique keys of runs under enqueues (createRunsUniqueTx).
use quacker.Prelude.{
  ℕ, ◌≡◌, refl, sym, ◌∙◌, ap, subst, String, false, inl, inr, Bool-cases, Option-cases, List, [],
  ◌∷◌, Memᴰ, any, str_eq, leb, length,
}
use quacker.Table.{first}
use quacker.Store.Model.{is_terminal, Run, Db, OnOk, OnOk-bind}
use quacker.Store.Complete.{is_run}
use quacker.Store.Lifecycle.{cancel_run_tx, cancel_row}
use quacker.Store.Enqueue.{
  Job, Enqueue, UniqueConflict, ConcurrencyStrategy, ReplacedRun, collides, insert_run, insert_job,
  place, place_fresh, place_unique, resolve_conflict, insert_now, uses_strategy,
  apply_concurrency_strategy, cancel_victims, cancel_or_delete_run, key_candidates, replace_run,
  live_run_by_unique, create_jobs, start_enqueue, number_job, numbered, next_seq_of, is_sequenced,
  is_immediate, alloc_seq,
}
use quacker.Store.Enqueue.Holders.{HasLiveKeys, RunChanges-HasLiveKeys, appended}
use quacker.Store.Enqueue.OneByOne.{insert_one, insert_job_lem}
use quacker.Store.Enqueue.Inserts.{insert_steps_keep}
use quacker.Store.Enqueue.Batching.{
  direct_each, direct_step, direct_numbered, create_jobs_one_by_one,
}
use quacker.Store.Transitions.Keys.{
  RunChanges-trans, stay, set, freed, KeepsKeys, delete_ephemeral_run-KeepsKeys,
}

insert_one-HasLiveKeys :
    (j : Job) (db : Db)
    → is_terminal j.run.status ≡ false
    → HasLiveKeys db.runs
    → OnOk (λ d. HasLiveKeys d.runs) (insert_one j db)
unfolding insert_one insert_run
insert_one-HasLiveKeys j db live h = elim (Bool-cases (any (collides j.run) db.runs)) [
  | inl e ↦ rw e tt
  | inr e ↦ rw e (
      insert_steps_keep (λ d. HasLiveKeys d.runs) (λ d rows k. k) (λ d rows k. k) j.steps _
        (appended j.run db.runs live e h))
]

pub insert_job-HasLiveKeys :
    (j : Job) (db : Db)
    → is_terminal j.run.status ≡ false
    → HasLiveKeys db.runs
    → OnOk (λ d. HasLiveKeys d.runs) (insert_job j db)
insert_job-HasLiveKeys j db live h = rw (insert_job_lem j db) (insert_one-HasLiveKeys j db live h)

cancel_or_delete_run-KeepsKeys :
    (run_id : String) (now : ℕ) (db : Db) → KeepsKeys db (cancel_or_delete_run run_id now db).0
unfolding cancel_or_delete_run cancel_run_tx
cancel_or_delete_run-KeepsKeys run_id now db = elim (Option-cases (first (is_run run_id) db.runs)) [
  | inl e ↦ rw (e, cancel_or_delete_run) stay
  | inr (run, e) ↦ elim (Bool-cases run.ephemeral) [
    | inl k ↦ rw (e, cancel_or_delete_run, k) (delete_ephemeral_run-KeepsKeys run_id db)
    | inr k ↦
        rw (e, cancel_or_delete_run, k)
          (set (is_run run_id) (cancel_row now) (λ x. freed refl refl) stay)
  ]
]

cancel_victims-KeepsKeys :
    (now : ℕ) (rs : List Run) (db : Db) → KeepsKeys db (cancel_victims now rs db).0
unfolding cancel_victims
cancel_victims-KeepsKeys now [] db = stay
cancel_victims-KeepsKeys now (r ∷ rs) db =
    RunChanges-trans (cancel_or_delete_run-KeepsKeys r.id now db)
      (cancel_victims-KeepsKeys now rs _)

strategy-KeepsKeys :
    (run : Run) (limit : ℕ) (strategy : ConcurrencyStrategy) (now : ℕ) (db : Db)
    → KeepsKeys db (apply_concurrency_strategy run limit strategy now db).0
unfolding apply_concurrency_strategy
strategy-KeepsKeys run limit strategy now db =
    elim (Bool-cases (leb (length (key_candidates run db)) limit)) [
      | inl e ↦ rw e stay
      | inr e ↦ rw e (cancel_victims-KeepsKeys now _ db)
    ]

insert_now-HasLiveKeys :
    (now : ℕ) (j : Job) (db : Db)
    → is_terminal j.run.status ≡ false
    → HasLiveKeys db.runs
    → OnOk (λ r. HasLiveKeys r.0.runs) (insert_now now j db)
unfolding insert_now
insert_now-HasLiveKeys now j db live h =
    OnOk-bind (λ d. HasLiveKeys d.runs) (λ r. HasLiveKeys r.0.runs) (insert_job j db) _
      (insert_job-HasLiveKeys j db live h)
      (λ d k. elim (Bool-cases (uses_strategy j)) [
        | inl e ↦ rw e (RunChanges-HasLiveKeys (strategy-KeepsKeys j.run _ _ now d) k)
        | inr e ↦ rw e k
      ])

place_fresh-HasLiveKeys :
    (now : ℕ) (j : Job) (replaced : List ReplacedRun) (db : Db)
    → is_terminal j.run.status ≡ false
    → HasLiveKeys db.runs
    → OnOk (λ p. HasLiveKeys p.db.runs) (place_fresh now j replaced db)
unfolding place_fresh
place_fresh-HasLiveKeys now j replaced db live h =
    OnOk-bind (λ r. HasLiveKeys r.0.runs) (λ p. HasLiveKeys p.db.runs) (insert_now now j db) _
      (insert_now-HasLiveKeys now j db live h) (λ r k. k)

resolved :
    (now : ℕ) (j : Job) (existing : Run) (db : Db) (conflict : UniqueConflict)
    → j.conflict ≡ conflict
    → is_terminal j.run.status ≡ false
    → HasLiveKeys db.runs
    → OnOk (λ p. HasLiveKeys p.db.runs) (resolve_conflict now j existing db)
unfolding resolve_conflict replace_run
resolved now j existing db UniqueConflict.unique_reuse e live h = rw (e, resolve_conflict) h
resolved now j existing db UniqueConflict.unique_error e live h = rw (e, resolve_conflict) tt
resolved now j existing db UniqueConflict.unique_replace e live h =
    rw (e, resolve_conflict)
      (place_fresh-HasLiveKeys now j _ _ live (
        RunChanges-HasLiveKeys
          (set (is_run existing.id) (cancel_row now) (λ x. freed refl refl) stay) h))

place-HasLiveKeys :
    (now : ℕ) (j : Job) (db : Db)
    → is_terminal j.run.status ≡ false
    → HasLiveKeys db.runs
    → OnOk (λ p. HasLiveKeys p.db.runs) (place now j db)
unfolding place place_unique
place-HasLiveKeys now j db live h = elim (Bool-cases (str_eq j.run.unique_key "")) [
  | inl e ↦ rw e (place_fresh-HasLiveKeys now j [] db live h)
  | inr e ↦ elim (Option-cases (live_run_by_unique j.run.workflow j.run.unique_key db)) [
    | inl none_live ↦ rw (e, none_live, place_unique) (place_fresh-HasLiveKeys now j [] db live h)
    | inr (existing, found) ↦
        rw (e, found, place_unique) (resolved now j existing db j.conflict refl live h)
  ]
]

numbered-status : (j : Job) (seq : ℕ) → (numbered j seq).run.status ≡ j.run.status
unfolding number_job
numbered-status j seq = elim (Bool-cases (is_sequenced j)) [ inl e ↦ rw e refl | inr e ↦ rw e refl ]

direct_numbered-HasLiveKeys :
    (now seq : ℕ) (j : Job) (e : Enqueue)
    → is_terminal j.run.status ≡ false
    → HasLiveKeys e.db.runs
    → OnOk (λ d. HasLiveKeys d.db.runs) (direct_numbered now seq j e)
unfolding direct_numbered
direct_numbered-HasLiveKeys now seq j e live h = elim (Bool-cases (is_immediate j)) [
  | inl k ↦ rw k (
      OnOk-bind (λ p. HasLiveKeys p.db.runs) (λ d. HasLiveKeys d.db.runs) (place now j e.db) _
        (place-HasLiveKeys now j e.db live h) (λ p q. q))
  | inr k ↦ rw k (
      OnOk-bind (λ d. HasLiveKeys d.runs) (λ d. HasLiveKeys d.db.runs) (insert_one j e.db) _
        (insert_one-HasLiveKeys j e.db live h) (λ d q. q))
]

direct_each-HasLiveKeys :
    (now : ℕ) (js : List Job) (e : Enqueue)
    → ((j : Job) → Memᴰ j js → is_terminal j.run.status ≡ false)
    → HasLiveKeys e.db.runs
    → OnOk (λ d. HasLiveKeys d.db.runs) (direct_each now js e)
unfolding direct_each direct_step
direct_each-HasLiveKeys now [] e live h = h
direct_each-HasLiveKeys now (j ∷ js) e live h =
    OnOk-bind (λ d. HasLiveKeys d.db.runs) (λ d. HasLiveKeys d.db.runs) (direct_step now j e) _
      (direct_numbered-HasLiveKeys now _ (numbered j (next_seq_of j e.seq)) e
        (ap is_terminal (numbered-status j (next_seq_of j e.seq)) ∙ live j (Memᴰ.head refl)) h)
      (λ d k. direct_each-HasLiveKeys now js d (λ x m. live x (Memᴰ.tail m)) k)

-- An enqueue keeps the unique keys: if at most one run holds each unique key of a workflow and no run
-- that has ended holds one, and the enqueued runs have not ended, then after the enqueue, unless it
-- fails, both hold again, whatever the conflict policies and the cancel strategies are.
pub create_jobs-HasLiveKeys :
    (now : ℕ) (js : List Job) (db : Db)
    → ((j : Job) → Memᴰ j js → is_terminal j.run.status ≡ false)
    → HasLiveKeys db.runs
    → OnOk (λ e. HasLiveKeys e.db.runs) (create_jobs now js db)
unfolding start_enqueue alloc_seq
create_jobs-HasLiveKeys now js db live h =
    subst (OnOk (λ e. HasLiveKeys e.db.runs)) (sym (create_jobs_one_by_one now js db))
      (direct_each-HasLiveKeys now js (start_enqueue js db) live h)
