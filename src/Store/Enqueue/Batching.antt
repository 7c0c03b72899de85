-- ===== src/Store/Enqueue/Batching.antt =====
-- The multi-row inserts of createRunsUniqueTx against a loop that inserts each run on its own.
use quacker.Prelude.{
  ℕ, ◌≡◌, refl, sym, ◌∙◌, ap, inl, inr, ◌⊎◌, Bool-cases, List, [], ◌∷◌, ◌++◌, if◌then◌else◌,
}
use quacker.Store.Model.{Db, Error, Result, ok, err, ◌>>=◌}
use quacker.Store.Enqueue.{
  Job, Enqueue, next_seq_of, numbered, enqueue_numbered, is_immediate, insert_jobs, place,
  enqueue_step, enqueue_each, flush, start_enqueue, create_jobs,
}
use quacker.Store.Enqueue.OneByOne.{
  insert_one, insert_jobs-append, insert_jobs-nil, bind_assoc, bind_ok,
}

-- The reference: no run waits for a later insert.
unfoldable pub direct_numbered : ℕ → ℕ → Job → Enqueue → Result Enqueue
direct_numbered now seq j e =
    let inserted : Result Enqueue = insert_one j e.db >>= λ db1.
    ok (record e { db = db1; ids = e.ids ++ j.run.id ∷ []; seq = seq }) in
    let placed : Result Enqueue = place now j e.db >>= λ p. ok (record e {
      db = p.db;
      ids = e.ids ++ p.id ∷ [];
      replaced = e.replaced ++ p.replaced;
      seq = seq;
    }) in
    if is_immediate j then placed else inserted

unfoldable pub direct_step : ℕ → Job → Enqueue → Result Enqueue
direct_step now j e = direct_numbered now (next_seq_of j e.seq) (numbered j (next_seq_of j e.seq)) e

unfoldable pub direct_each : ℕ → List Job → Enqueue → Result Enqueue
direct_each now [] e = ok e
direct_each now (j ∷ js) e = direct_step now j e >>= direct_each now js

bind_cong :
    {A B : Type 0} (m : Result A) (f g : A → Result B)
    → ((a : A) → f a ≡ g a)
    → (m >>= f) ≡ (m >>= g)
bind_cong (ok a) f g h = h a
bind_cong (err e) f g h = refl

Result-cases : {A : Type 0} (m : Result A) → ((a : A) × (m ≡ ok a)) ⊎ ((x : Error) × (m ≡ err x))
Result-cases (ok a) = inl (a, refl)
Result-cases (err x) = inr (x, refl)

-- A round and the flush after it, against the flush before it and a round of the reference.
enqueue_numbered-flush :
    (now seq : ℕ) (j : Job) (e : Enqueue)
    → (enqueue_numbered now seq j e >>= flush) ≡ (flush e >>= direct_numbered now seq j)
unfolding enqueue_numbered flush direct_numbered
enqueue_numbered-flush now seq j e = elim (Bool-cases (is_immediate j)) [
  | inl k ↦ elim (Result-cases (insert_jobs e.pending e.db)) [
    | inl (d, ed) ↦ elim (Result-cases (place now j d)) [
      | inl (p, ep) ↦ simp (k, ed, ep, insert_jobs-nil) refl
      | inr (x, ep) ↦ simp (k, ed, ep) refl
    ]
    | inr (x, ed) ↦ simp (k, ed) refl
  ]
  | inr k ↦ elim (Result-cases (insert_jobs e.pending e.db)) [
    | inl (d, ed) ↦ elim (Result-cases (insert_one j d)) [
      | inl (p, ep) ↦ simp (k, ed, ep, insert_jobs-append e.pending j e.db) refl
      | inr (x, ep) ↦ simp (k, ed, ep, insert_jobs-append e.pending j e.db) refl
    ]
    | inr (x, ed) ↦ simp (k, ed, insert_jobs-append e.pending j e.db) refl
  ]
]

enqueue_step-flush :
    (now : ℕ) (j : Job) (e : Enqueue)
    → (enqueue_step now j e >>= flush) ≡ (flush e >>= direct_step now j)
unfolding enqueue_step direct_step flush
enqueue_step-flush now j e =
    enqueue_numbered-flush now (next_seq_of j e.seq) (numbered j (next_seq_of j e.seq)) e
    ∙ bind_assoc (insert_jobs e.pending e.db) (λ d. ok (record e { db = d; pending = [] }))
        (direct_numbered now (next_seq_of j e.seq) (numbered j (next_seq_of j e.seq)))
    ∙ sym (
        bind_assoc (insert_jobs e.pending e.db) (λ d. ok (record e { db = d; pending = [] }))
          (direct_step now j))

enqueue_each-flush :
    (now : ℕ) (js : List Job) (e : Enqueue)
    → (enqueue_each now js e >>= flush) ≡ (flush e >>= direct_each now js)
unfolding enqueue_each direct_each enqueue_step direct_step
enqueue_each-flush now [] e = sym (bind_ok (flush e))
enqueue_each-flush now (j ∷ js) e =
    bind_assoc (enqueue_step now j e) (enqueue_each now js) flush
    ∙ bind_cong (enqueue_step now j e) (λ a. enqueue_each now js a >>= flush)
        (λ a. flush a >>= direct_each now js) (enqueue_each-flush now js)
    ∙ sym (bind_assoc (enqueue_step now j e) flush (direct_each now js))
    ∙ ap (λ m. m >>= direct_each now js) (enqueue_step-flush now j e)
    ∙ bind_assoc (flush e) (direct_step now j) (direct_each now js)

flush-start : (js : List Job) (db : Db) → flush (start_enqueue js db) ≡ ok (start_enqueue js db)
unfolding flush start_enqueue
flush-start js db = simp insert_jobs-nil refl

pub create_jobs_one_by_one :
    (now : ℕ) (js : List Job) (db : Db)
    → create_jobs now js db ≡ direct_each now js (start_enqueue js db)
unfolding create_jobs
create_jobs_one_by_one now js db =
    enqueue_each-flush now js (start_enqueue js db)
    ∙ ap (λ m. m >>= direct_each now js) (flush-start js db)
