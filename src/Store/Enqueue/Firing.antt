-- ===== src/Store/Enqueue/Firing.antt =====
-- The compare-and-set of FireCron, against a second one.
use quacker.Prelude.{
  ℕ, ◌≡◌, ◌≢◌, refl, String, Bool, true, false, inl, inr, Bool-cases, List, [], ◌∷◌, arith, ◌==◌,
  any, subst,
}
use quacker.Table.{count, update}
use quacker.Store.Model.{Cron, Db, ok, OnOk, OnOk-bind}
use quacker.Store.Enqueue.OneByOne.{insert_one, insert_job_lem}
use quacker.Store.Enqueue.Inserts.{insert_steps_keep}
use quacker.Store.Enqueue.{Job, insert_job, insert_run, collides, fire_cron, is_occurrence}

-- After a compare-and-set from `expect` to another value, no row of the name stands at `expect`.
no_occurrence :
    (name : String) (expect new : ℕ) (crons : List Cron)
    → expect ≢ new
    → count
        (is_occurrence name expect)
        (update (is_occurrence name expect) (λ c. record c { next_at = new }) crons)
      ≡ 0
unfolding count update
no_occurrence name expect new [] ne = refl
no_occurrence name expect new (c ∷ cs) ne = elim (Bool-cases (is_occurrence name expect c)) [
  | inl e ↦
      let moved : is_occurrence name expect (record c { next_at = new }) ≡ false = ground arith in
      simp (e, moved) (no_occurrence name expect new cs ne)
  | inr e ↦ simp e (no_occurrence name expect new cs ne)
]

update-none :
    {A : Type 0} (q : A → Bool) (f : A → A) (xs : List A) → count q xs ≡ 0 → update q f xs ≡ xs
unfolding count update
update-none q f [] h = refl
update-none q f (x ∷ xs) h = elim (Bool-cases (q x)) [
  | inl e ↦ absurd (let k = rw e at h in omega (arith, k))
  | inr e ↦ let k : count q xs ≡ 0 = simp e at h in simp (e, update-none q f xs k) refl
]

-- The inserts leave the crons alone.
abbrev SameCrons : Db → Db → Type 0
SameCrons db d = d.crons ≡ db.crons

insert_job-SameCrons : (j : Job) (db : Db) → OnOk (SameCrons db) (insert_job j db)
unfolding insert_one insert_run
insert_job-SameCrons j db =
    rw (insert_job_lem j db) (elim (Bool-cases (any (collides j.run) db.runs)) [
      | inl e ↦ rw e tt
      | inr e ↦
          rw e (insert_steps_keep (SameCrons db) (λ d rows h. h) (λ d rows h. h) j.steps _ refl)
    ])

fire_cron-crons :
    (name : String) (expect new : ℕ) (j : Job) (db : Db)
    → OnOk
        (λ r.
          r.0.crons ≡ update (is_occurrence name expect) (λ c. record c { next_at = new }) db.crons)
        (fire_cron name expect new j db)
unfolding fire_cron
fire_cron-crons name expect new j db =
    elim (Bool-cases (count (is_occurrence name expect) db.crons == 1)) [
      | inl e ↦ rw e (
          OnOk-bind
            (λ d.
              d.crons
              ≡ update (is_occurrence name expect) (λ c. record c { next_at = new }) db.crons)
            (λ r.
              r.0.crons
              ≡ update (is_occurrence name expect) (λ c. record c { next_at = new }) db.crons)
            (insert_job j _) _ (insert_job-SameCrons j _) (λ d same. same))
      | inr e ↦ rw e refl
    ]

fire_cron_lost :
    (name : String) (expect new2 : ℕ) (j2 : Job) (db : Db)
    → count (is_occurrence name expect) db.crons ≡ 0
    → fire_cron name expect new2 j2 db ≡ ok (db, false)
unfolding fire_cron
fire_cron_lost name expect new2 j2 db none_left =
    let missed : (count (is_occurrence name expect) db.crons == 1) ≡ false = rw none_left refl in
    simp
      (
        missed,
        update-none (is_occurrence name expect) (λ c. record c { next_at = new2 }) db.crons
            none_left,
      )
      refl

-- A cron occurrence fires at most once: if FireCron advances a cron from `expect` to another time and
-- enqueues its run, then a FireCron of any node that still expects `expect` reports that it lost the
-- race and leaves the database as it is, whatever it would have advanced to and enqueued.
pub fire_cron_once :
    (name : String) (expect new new2 : ℕ) (j j2 : Job) (db db' : Db)
    → expect ≢ new
    → fire_cron name expect new j db ≡ ok (db', true)
    → fire_cron name expect new2 j2 db' ≡ ok (db', false)
fire_cron_once name expect new new2 j j2 db db' ne fired =
    let advanced : db'.crons
        ≡ update (is_occurrence name expect) (λ c. record c { next_at = new }) db.crons =
      subst
        (OnOk (λ r.
          r.0.crons
          ≡ update (is_occurrence name expect) (λ c. record c { next_at = new }) db.crons))
        fired (fire_cron-crons name expect new j db) in
    fire_cron_lost name expect new2 j2 db' (rw advanced (no_occurrence name expect new db.crons ne))
