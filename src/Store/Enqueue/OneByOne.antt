-- ===== src/Store/Enqueue/OneByOne.antt =====
-- The multi-row inserts of insertRunsTx against a loop that inserts each run whole before the next.
use quacker.Prelude.{
  ℕ, zero, suc, ◌-◌, Bool, ◌≡◌, refl, sym, ◌∙◌, ap, inl, inr, Bool-cases, String, List, [], ◌∷◌,
  ◌++◌, map, any, str_eq, if◌then◌else◌, append-nil, append-snoc,
}
use mathlib.Core.List.{append_assoc}
use quacker.Store.Model.{
  Run, Step, StepKey, StepKeyRow, Db, Result, ok, err, ◌>>=◌, unique_violation,
}
use quacker.Store.Enqueue.{
  Job, collides, is_key_row, inserted_step, inserted_run, insert_run, insert_step, insert_key,
  insert_each, all_steps, all_keys, key_rows, insert_chunk, insert_chunks, insert_batch,
  insert_jobs, insert_job,
}

-- The reference: a run, then each of its steps with the step's keys.
unfoldable pub insert_keys : String → List StepKey → Db → Result Db
insert_keys step_id [] db = ok db
insert_keys step_id (k ∷ ks) db =
    let rest =
      insert_keys step_id ks
        (record db { step_keys = db.step_keys ++ record { step_id = step_id; key = k } ∷ [] }) in
    if any (is_key_row step_id k) db.step_keys then err unique_violation else rest

unfoldable pub insert_steps : List Step → Db → Result Db
insert_steps [] db = ok db
insert_steps (st ∷ sts) db = do
  db1 ←
      (if any (λ s. str_eq s.id st.id) db.steps
        then err unique_violation
        else ok (record db { steps = db.steps ++ inserted_step st ∷ [] }))
  db2 ← insert_keys st.id st.keys db1
  insert_steps sts db2

unfoldable pub insert_one : Job → Db → Result Db
insert_one j db = insert_run j.run db >>= insert_steps j.steps

pub bind_assoc :
    {A B C : Type 0} (m : Result A) (f : A → Result B) (g : B → Result C)
    → (m >>= f >>= g) ≡ (m >>= λ a. f a >>= g)
bind_assoc (ok a) f g = refl
bind_assoc (err e) f g = refl

pub bind_ok : {A : Type 0} (m : Result A) → (m >>= λ a. ok a) ≡ m
bind_ok (ok a) = refl
bind_ok (err e) = refl

-- Two parts of a transaction, one after the other.
abbrev Part : Type 0
Part = Db → Result Db

infixr 60 ◌⨾◌
abbrev ◌⨾◌ : Part → Part → Part
◌⨾◌ f g db = f db >>= g

seq_assoc : (f g h : Part) → (f ⨾ g) ⨾ h ≡ f ⨾ (g ⨾ h)
seq_assoc f g h = λ i db. bind_assoc (f db) g h i

swap : (f g h : Part) → f ⨾ g ≡ g ⨾ f → f ⨾ (g ⨾ h) ≡ g ⨾ (f ⨾ h)
swap f g h e = sym (seq_assoc f g h) ∙ ap (λ k. k ⨾ h) e ∙ seq_assoc g f h

nil_right : {A : Type 0} (f : Part) (g : A → Part) → f ⨾ insert_each g [] ≡ f
unfolding insert_each
nil_right f g = λ i db. bind_ok (f db) i

insert_each-append :
    {A : Type 0} (g : A → Part) (xs ys : List A)
    → insert_each g (xs ++ ys) ≡ insert_each g xs ⨾ insert_each g ys
unfolding insert_each
insert_each-append g [] ys = refl
insert_each-append g (x ∷ xs) ys =
    ap (λ k. g x ⨾ k) (insert_each-append g xs ys)
    ∙ sym (seq_assoc (g x) (insert_each g xs) (insert_each g ys))

commute_each :
    {A : Type 0} (f : Part) (g : A → Part)
    → ((x : A) → f ⨾ g x ≡ g x ⨾ f)
    → (xs : List A) → f ⨾ insert_each g xs ≡ insert_each g xs ⨾ f
unfolding insert_each
commute_each f g h [] = nil_right f g
commute_each f g h (x ∷ xs) =
    swap f (g x) (insert_each g xs) (h x)
    ∙ ap (λ k. g x ⨾ k) (commute_each f g h xs)
    ∙ sym (seq_assoc (g x) (insert_each g xs) f)

commute_both :
    {A B : Type 0} (f : A → Part) (g : B → Part)
    → ((x : A) (y : B) → f x ⨾ g y ≡ g y ⨾ f x)
    → (xs : List A) (ys : List B)
    → insert_each f xs ⨾ insert_each g ys ≡ insert_each g ys ⨾ insert_each f xs
commute_both f g h xs ys =
    sym (commute_each (insert_each g ys) f (λ x. sym (commute_each (f x) g (λ y. h x y) ys)) xs)

abbrev guarded : (Db → Bool) → (Db → Db) → Part
guarded taken f db = if taken db then err unique_violation else ok (f db)

-- Rows of different tables do not meet.
commute_guarded :
    (p q : Db → Bool) (f g : Db → Db)
    → ((db : Db) → p (g db) ≡ p db)
    → ((db : Db) → q (f db) ≡ q db)
    → ((db : Db) → g (f db) ≡ f (g db))
    → guarded p f ⨾ guarded q g ≡ guarded q g ⨾ guarded p f
commute_guarded p q f g hp hq same = λ i db. at db i
  where
    at : (db : Db) → (guarded p f db >>= guarded q g) ≡ (guarded q g db >>= guarded p f)
    at db = elim (Bool-cases (p db)) [
      | inl e ↦ elim (Bool-cases (q db)) [
        | inl k ↦ simp (e, k) refl
        | inr k ↦ simp (e, k, hp db) refl
      ]
      | inr e ↦ elim (Bool-cases (q db)) [
        | inl k ↦ simp (e, k, hq db) refl
        | inr k ↦ simp (e, k, hp db, hq db) (ap ok (same db))
      ]
    ]

run_step : (r : Run) (st : Step) → insert_run r ⨾ insert_step st ≡ insert_step st ⨾ insert_run r
unfolding insert_run insert_step
run_step r st =
    commute_guarded (λ db. any (collides r) db.runs) (λ db. any (λ s. str_eq s.id st.id) db.steps)
      (λ db. record db { runs = db.runs ++ inserted_run r ∷ [] })
      (λ db. record db { steps = db.steps ++ inserted_step st ∷ [] }) (λ db. refl) (λ db. refl)
      (λ db. refl)

run_key : (r : Run) (k : StepKeyRow) → insert_run r ⨾ insert_key k ≡ insert_key k ⨾ insert_run r
unfolding insert_run insert_key
run_key r k =
    commute_guarded (λ db. any (collides r) db.runs)
      (λ db. any (is_key_row k.step_id k.key) db.step_keys)
      (λ db. record db { runs = db.runs ++ inserted_run r ∷ [] })
      (λ db. record db { step_keys = db.step_keys ++ k ∷ [] }) (λ db. refl) (λ db. refl)
      (λ db. refl)

step_key :
    (st : Step) (k : StepKeyRow) → insert_step st ⨾ insert_key k ≡ insert_key k ⨾ insert_step st
unfolding insert_step insert_key
step_key st k =
    commute_guarded (λ db. any (λ s. str_eq s.id st.id) db.steps)
      (λ db. any (is_key_row k.step_id k.key) db.step_keys)
      (λ db. record db { steps = db.steps ++ inserted_step st ∷ [] })
      (λ db. record db { step_keys = db.step_keys ++ k ∷ [] }) (λ db. refl) (λ db. refl)
      (λ db. refl)

insert_keys-each :
    (id : String) (ks : List StepKey) (db : Db)
    → insert_keys id ks db ≡ insert_each insert_key (key_rows id ks) db
unfolding insert_keys insert_each insert_key
insert_keys-each id [] db = refl
insert_keys-each id (k ∷ ks) db = elim (Bool-cases (any (is_key_row id k) db.step_keys)) [
  | inl e ↦ rw e refl
  | inr e ↦ rw e (insert_keys-each id ks _)
]

-- All steps and then all keys, against each step with its keys.
steps_keys :
    (sts : List Step)
    → insert_each insert_step sts ⨾ insert_each insert_key (all_keys sts) ≡ insert_steps sts
unfolding insert_each insert_steps all_keys insert_step
steps_keys [] = refl
steps_keys (st ∷ sts) =
    let s = insert_step st in
    let S = insert_each insert_step sts in
    let k = insert_each insert_key (key_rows st.id st.keys) in
    let K = insert_each insert_key (all_keys sts) in
    ap (λ x. (s ⨾ S) ⨾ x) (insert_each-append insert_key (key_rows st.id st.keys) (all_keys sts))
    ∙ seq_assoc s S (k ⨾ K)
    ∙ ap (λ x. s ⨾ x)
        (swap S k K (commute_both insert_step insert_key step_key sts (key_rows st.id st.keys)))
    ∙ ap (λ x. s ⨾ (k ⨾ x)) (steps_keys sts)
    ∙ ap (λ x. s ⨾ (x ⨾ insert_steps sts)) (λ i db. sym (insert_keys-each st.id st.keys db) i)

all_keys-append : (xs ys : List Step) → all_keys (xs ++ ys) ≡ all_keys xs ++ all_keys ys
unfolding all_keys
all_keys-append [] ys = refl
all_keys-append (x ∷ xs) ys =
    ap (λ l. key_rows x.id x.keys ++ l) (all_keys-append xs ys)
    ∙ sym (append_assoc (key_rows x.id x.keys) (all_keys xs) (all_keys ys))

-- Three tables, with a first group of rows each.
regroup :
    (r R s S k K : Part)
    → R ⨾ s ≡ s ⨾ R
    → R ⨾ k ≡ k ⨾ R
    → S ⨾ k ≡ k ⨾ S
    → ((r ⨾ R) ⨾ (s ⨾ S)) ⨾ (k ⨾ K) ≡ (r ⨾ (s ⨾ k)) ⨾ ((R ⨾ S) ⨾ K)
regroup r R s S k K Rs Rk Sk =
    seq_assoc (r ⨾ R) (s ⨾ S) (k ⨾ K)
    ∙ seq_assoc r R ((s ⨾ S) ⨾ (k ⨾ K))
    ∙ ap (λ x. r ⨾ (R ⨾ x)) (seq_assoc s S (k ⨾ K) ∙ ap (λ x. s ⨾ x) (swap S k K Sk))
    ∙ ap (λ x. r ⨾ x) (swap R s (k ⨾ (S ⨾ K)) Rs ∙ ap (λ x. s ⨾ x) (swap R k (S ⨾ K) Rk))
    ∙ ap (λ x. r ⨾ (s ⨾ (k ⨾ x))) (sym (seq_assoc R S K))
    ∙ ap (λ x. r ⨾ x) (sym (seq_assoc s k ((R ⨾ S) ⨾ K)))
    ∙ sym (seq_assoc r (s ⨾ k) ((R ⨾ S) ⨾ K))

insert_chunk-each : (js : List Job) → insert_chunk js ≡ insert_each insert_one js
unfolding insert_chunk insert_each all_steps all_keys insert_one
insert_chunk-each [] = refl
insert_chunk-each (j ∷ js) =
    let r = insert_run j.run in
    let R = insert_each insert_run (map (λ j. j.run) js) in
    let s = insert_each insert_step j.steps in
    let S = insert_each insert_step (all_steps js) in
    let k = insert_each insert_key (all_keys j.steps) in
    let K = insert_each insert_key (all_keys (all_steps js)) in
    ap (λ x. ((r ⨾ R) ⨾ x) ⨾ insert_each insert_key (all_keys (j.steps ++ all_steps js)))
      (insert_each-append insert_step j.steps (all_steps js))
    ∙ ap (λ l. ((r ⨾ R) ⨾ (s ⨾ S)) ⨾ insert_each insert_key l)
        (all_keys-append j.steps (all_steps js))
    ∙ ap (λ x. ((r ⨾ R) ⨾ (s ⨾ S)) ⨾ x)
        (insert_each-append insert_key (all_keys j.steps) (all_keys (all_steps js)))
    ∙ regroup r R s S k K
        (commute_both insert_run insert_step run_step (map (λ j. j.run) js) j.steps)
        (commute_both insert_run insert_key run_key (map (λ j. j.run) js) (all_keys j.steps))
        (commute_both insert_step insert_key step_key (all_steps js) (all_keys j.steps))
    ∙ ap (λ x. (r ⨾ x) ⨾ ((R ⨾ S) ⨾ K)) (steps_keys j.steps)
    ∙ ap (λ x. (r ⨾ insert_steps j.steps) ⨾ x) (insert_chunk-each js)

insert_chunks-each :
    (batch room : ℕ) (chunk js : List Job)
    → insert_chunks batch room chunk js ≡ insert_each insert_one (chunk ++ js)
unfolding insert_chunks
insert_chunks-each batch room chunk [] =
    insert_chunk-each chunk ∙ ap (insert_each insert_one) (sym (append-nil chunk))
insert_chunks-each batch zero chunk (j ∷ js) =
    ap (λ x. insert_chunk chunk ⨾ x) (insert_chunks-each batch (batch - 1) (j ∷ []) js)
    ∙ ap (λ x. x ⨾ insert_each insert_one (j ∷ js)) (insert_chunk-each chunk)
    ∙ sym (insert_each-append insert_one chunk (j ∷ js))
insert_chunks-each batch (suc room) chunk (j ∷ js) =
    insert_chunks-each batch room (chunk ++ j ∷ []) js
    ∙ ap (insert_each insert_one) (append-snoc chunk j js)

pub insert_jobs-each : (js : List Job) → insert_jobs js ≡ insert_each insert_one js
unfolding insert_jobs
insert_jobs-each js = insert_chunks-each insert_batch insert_batch [] js

pub insert_jobs-nil : (db : Db) → insert_jobs [] db ≡ ok db
unfolding insert_each
insert_jobs-nil db = λ i. insert_jobs-each [] i db

pub insert_job_lem : (j : Job) (db : Db) → insert_job j db ≡ insert_one j db
unfolding insert_job insert_each
insert_job_lem j db = (λ i. insert_jobs-each (j ∷ []) i db) ∙ bind_ok (insert_one j db)

pub insert_jobs-append :
    (js : List Job) (j : Job) (db : Db)
    → insert_jobs (js ++ j ∷ []) db ≡ (insert_jobs js db >>= insert_one j)
unfolding insert_each
insert_jobs-append js j db = λ i. whole i db
  where
    whole : insert_jobs (js ++ j ∷ []) ≡ insert_jobs js ⨾ insert_one j
    whole =
        insert_jobs-each (js ++ j ∷ [])
        ∙ insert_each-append insert_one js (j ∷ [])
        ∙ ap (λ x. insert_each insert_one js ⨾ x) (nil_right (insert_one j) insert_one)
        ∙ ap (λ x. x ⨾ insert_one j) (sym (insert_jobs-each js))
