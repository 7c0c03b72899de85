-- ===== src/Store/Complete/Unblock.antt =====
-- What unblockReadyTx queues, against the dependencies that are done.
use quacker.Prelude.{
  ℕ, ◌≡◌, refl, sym, ◌∙◌, ap, String, true, false, inl, inr, Bool-cases, Option-cases, &&-true,
  &&-intro, str_eq, eq_iff, arith, List, [], ◌∷◌, Memᴰ, all, all-mem,
}
use quacker.Table.{first, update, select}
use quacker.Table.Laws.{mem-first, first-none, count_unique, mem-select}
use quacker.Store.Model.{Status, is, is_iff, Step}
use quacker.Store.Dag.{Done, DepsDone, HasKeys}
use quacker.Store.Dag.Evolution.{
  Keeps, Evolves, Evolves-trans, Evolves-Keeps, Evolves-refl, update-Evolves, Done-evolve, Launches,
  Launches-refl, DepsDone-evolve,
}
use quacker.Store.Complete.{
  has_succeeded, is_named, is_blocked_row, is_blocked_dependent, queue_step, unblock_each,
  unblock_ready,
}

pub has_succeeded-Done :
    (steps : List Step) (run_id name : String)
    → has_succeeded steps run_id name ≡ true
    → Done steps run_id name
unfolding has_succeeded
has_succeeded-Done steps run_id name h = elim (Option-cases (first (is_named run_id name) steps)) [
  | inl e ↦ let bad : false ≡ true = rw (e, has_succeeded) at h in absurd (ground arith)
  | inr (s, e) ↦
      let done : is Status.succeeded s.status ≡ true = rw (e, has_succeeded) at h in
      let (m, named) = mem-first (is_named run_id name) s steps e in
      record {
        step = s;
        mem = m;
        home = (eq_iff _ _).0 (&&-true _ _ named).0;
        named = (eq_iff _ _).0 (&&-true _ _ named).1;
        succeeded = (is_iff Status.succeeded s.status).0 done;
      }
]

pub Done-has_succeeded :
    (steps : List Step) (run_id name : String)
    → HasKeys steps
    → Done steps run_id name
    → has_succeeded steps run_id name ≡ true
unfolding has_succeeded
Done-has_succeeded steps run_id name keys d =
    let hit : is_named run_id name d.step ≡ true =
      &&-intro _ _ ((eq_iff _ _).1 d.home) ((eq_iff _ _).1 d.named) in
    elim (Option-cases (first (is_named run_id name) steps)) [
      | inl e ↦
          let miss = first-none (is_named run_id name) d.step steps e d.mem in absurd (ground arith)
      | inr (s, e) ↦
          let (m, named) = mem-first (is_named run_id name) s steps e in
          let same : s ≡ d.step =
            count_unique (is_named run_id name) s d.step steps (keys.names run_id name) m d.mem
              named hit in
          rw (e, has_succeeded)
            ((is_iff Status.succeeded s.status).1 (ap (λ x. x.status) same ∙ d.succeeded))
    ]

-- `steps` is what the table `before` has become: rows kept, and the dependency promise with them.
pub record Advanced (before steps : List Step) : Type 0 where
  pub evolved : Evolves Keeps before steps
  pub promise : DepsDone steps

module _ (before : List Step) (keys : HasKeys before) (run_id : String) (now : ℕ) where
  -- The row that an update by the id of `b` finds is `b`, as it has become.
  same_row :
      (cur : List Step) (b x : Step)
      → Evolves Keeps before cur
      → Memᴰ b before
      → Memᴰ x cur
      → x.id ≡ b.id
      → (x.depends_on ≡ b.depends_on) × (x.run_id ≡ b.run_id)
  same_row cur b x e mb mx same =
      let (x0, m0, k) = e.back x mx in
      let is_b : x0 ≡ b =
        count_unique (λ s. str_eq s.id b.id) x0 b before (keys.ids b.id) m0 mb
          ((eq_iff _ _).1 (sym k.id ∙ same)) ((eq_iff _ _).1 refl) in
      (k.depends_on ∙ ap (λ s. s.depends_on) is_b, k.run_id ∙ ap (λ s. s.run_id) is_b)

  queue_ready :
      (cur : List Step) (b : Step)
      → Advanced before cur
      → Memᴰ b before
      → b.run_id ≡ run_id
      → all (has_succeeded before run_id) b.depends_on ≡ true
      → Advanced before (update (is_blocked_row b.id) (queue_step now) cur)
  queue_ready cur b a mb home ready =
      let step : Evolves (Launches cur) cur (update (is_blocked_row b.id) (queue_step now) cur) =
        update-Evolves (Launches cur) (is_blocked_row b.id) (queue_step now) cur
          (λ x _ _. Launches-refl cur x) launched in
      record {
        evolved = Evolves-trans a.evolved (Evolves-Keeps step);
        promise = DepsDone-evolve step a.promise;
      }
    where
      launched :
          (x : Step) → Memᴰ x cur → is_blocked_row b.id x ≡ true → Launches cur x (queue_step now x)
      launched x m hit =
          let (same, blocked) = &&-true _ _ hit in
          let is_blocked = (is_iff Status.blocked x.status).0 blocked in
          let (deps, run) = same_row cur b x a.evolved mb m ((eq_iff _ _).0 same) in
          record {
            keeps = record {
              id = refl;
              run_id = refl;
              name = refl;
              depends_on = refl;
              succeeded = λ e. absurd (ground arith);
            };
            launch = λ _. inr (λ d m'. rw (run ∙ home) (
                Done-evolve a.evolved.forth (
                  has_succeeded-Done before run_id d
                    (all-mem (has_succeeded before run_id) b.depends_on ready d (rw deps at m')))));
          }

  unblock_each-Advanced :
      (bs : List Step)
      → ((b : Step) → Memᴰ b bs → Memᴰ b before × (b.run_id ≡ run_id))
      → (cur : List Step) → Advanced before cur
      → Advanced before (unblock_each before run_id now bs cur).0
  unfolding unblock_each
  unblock_each-Advanced [] from cur a = a
  unblock_each-Advanced (b ∷ bs) from cur a =
      let (mb, home) = from b (Memᴰ.head refl) in
      elim (Bool-cases (all (has_succeeded before run_id) b.depends_on)) [
        | inl ready ↦ rw ready (
            unblock_each-Advanced bs (λ x m. from x (Memᴰ.tail m)) _
              (queue_ready cur b a mb home ready))
        | inr not_ready ↦
            rw not_ready (unblock_each-Advanced bs (λ x m. from x (Memᴰ.tail m)) cur a)
      ]

  pub unblock_ready-Advanced :
      (name : String) → DepsDone before → Advanced before (unblock_ready run_id name now before).0
  unfolding unblock_ready is_blocked_dependent
  unblock_ready-Advanced name promise =
      unblock_each-Advanced (select (is_blocked_dependent run_id name) before)
        (λ b m.
          let (n, hit) = mem-select (is_blocked_dependent run_id name) b before m in
          (n, (eq_iff _ _).0 (&&-true _ _ hit).0))
        before (record { evolved = Evolves-refl before; promise = promise })
