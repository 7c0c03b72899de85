-- ===== src/Engine/Execute/Races/Cancelled.antt =====
-- Cancel against the executor of one of the run's steps.
use quacker.Prelude.{
  ◌&&◌, ℕ, ◌≡◌, ◌≢◌, refl, sym, ◌∙◌, ◌⊎◌, inl, inr, ap, subst, Bool, true, false, List, [], ◌∷◌,
  Memᴰ, none, some, arith,
}
use quacker.Table.{first}
use quacker.Store.Model.{Status, Step, Run, Db, is_terminal}
use quacker.Store.Lifecycle.{cancel_run, cancel_run_tx, cancel_row, running_steps}
use quacker.Store.Complete.{is_run}
use quacker.Engine.Requests.{TaskDef}
use quacker.Engine.State.{World, is_in}
use quacker.Engine.Control.{
  Interrupt, is_run_terminal, cancel_commit, cancel_finish, interrupt_local, release,
}
use quacker.Engine.Execute.Race.{
  Race, Half, Executor, Move, entered, begun, commit_at, finish_at, enter_at, decide_at, play,
  at_start,
}
use quacker.Engine.Execute.Races.Late.{TooLate, LateRace, LateRace-not_in_body}
use quacker.Engine.Execute.Races.{
  Ready, is_in-add_self, halts_left, calls_made, first-update, running_member, enter-cases,
  decide-cases, still-play,
}

abbrev IsKept : Step → Db → Type 0
IsKept st db = Ready (λ r. r.ephemeral) st db

abbrev HasEnded : Step → World → Type 0
HasEnded st w = is_run_terminal st.run_id w.db ≡ true

abbrev Registers : Step → World → Bool → Type 0
Registers st w b = is_in st.id w.engine.cancels ≡ b

-- What holds at each point of the race.
abbrev Fair : Step → Executor → Half → World → Type 0
Fair st Executor.returned half w = Unit {0}
Fair st Executor.claimed Half.asked w = IsKept st w.db × Registers st w false
Fair st Executor.claimed (Half.committed none) w = ⊥
Fair st Executor.claimed (Half.committed (some i)) w =
    Memᴰ st.id i.running × HasEnded st w × Registers st w false
Fair st Executor.claimed Half.finished w = HasEnded st w × (is_in st.id w.engine.halt_steps ≡ true)
Fair st (Executor.registered def h) Half.asked w = IsKept st w.db × Registers st w true
Fair st (Executor.registered def h) (Half.committed none) w = ⊥
Fair st (Executor.registered def h) (Half.committed (some i)) w =
    Memᴰ st.id i.running × HasEnded st w × Registers st w true
Fair st (Executor.registered def h) Half.finished w =
    HasEnded st w × ((h ≡ true) ⊎ (is_in st.id w.engine.cancelled ≡ true))
Fair st (Executor.in_body def) Half.asked w = IsKept st w.db × Registers st w true
Fair st (Executor.in_body def) (Half.committed none) w = ⊥
Fair st (Executor.in_body def) (Half.committed (some i)) w =
    Memᴰ st.id i.running × HasEnded st w × Registers st w true
Fair st (Executor.in_body def) Half.finished w = is_in st.id w.engine.cancelled ≡ true

abbrev FairRace : Step → Race → Type 0
FairRace st r = Fair st r.executor r.half r.world

cancel_commit-some :
    (st : Step) (now : ℕ) (w : World)
    → IsKept st w.db
    → (w' : World) × (i : Interrupt) × (cancel_commit st.run_id now w ≡ (w', some i))
      × (w'.engine ≡ w.engine)
      × HasEnded st w'
      × Memᴰ st.id i.running
unfolding cancel_commit cancel_run cancel_run_tx is_run_terminal
cancel_commit-some st now w k = (
  record w { db = cancel_run_tx st.run_id now w.db },
  record {
    run_id = st.run_id;
    prev_status = k.run.status;
    running = running_steps st.run_id w.db;
    at = now;
  },
  rw (k.found, cancel_commit, cancel_run, k.live, k.wanted) refl,
  refl,
  rw (first-update st.run_id (cancel_row now) w.db.runs k.run (λ r. refl) k.found, is_run_terminal)
      refl,
  running_member st w.db k.member k.running,
)

module _ (st : Step) (now : ℕ) where
  keep_commit :
      (x : Executor) (h : Half) (w : World)
      → Fair st x h w
      → FairRace st (
          commit_at
            (cancel_commit st.run_id now)
            cancel_finish
            st
            h
            (record { world = w; half = h; executor = x }))
  unfolding commit_at
  keep_commit Executor.returned Half.asked w f = tt
  keep_commit Executor.returned Half.finished w f = tt
  keep_commit Executor.returned (Half.committed i) w f = tt
  keep_commit x (Half.committed i) w f = f
  keep_commit x Half.finished w f = f
  keep_commit Executor.claimed Half.asked w (k, u) =
      let (w', i, e, same, ended, m) = cancel_commit-some st now w k in
      subst (λ p. Fair st Executor.claimed (Half.committed p.1) p.0) (sym e)
        (m, ended, ap (λ g. is_in st.id g.cancels) same ∙ u)
  keep_commit (Executor.registered def b) Half.asked w (k, u) =
      let (w', i, e, same, ended, m) = cancel_commit-some st now w k in
      subst (λ p. Fair st (Executor.registered def b) (Half.committed p.1) p.0) (sym e)
        (m, ended, ap (λ g. is_in st.id g.cancels) same ∙ u)
  keep_commit (Executor.in_body def) Half.asked w (k, u) =
      let (w', i, e, same, ended, m) = cancel_commit-some st now w k in
      subst (λ p. Fair st (Executor.in_body def) (Half.committed p.1) p.0) (sym e)
        (m, ended, ap (λ g. is_in st.id g.cancels) same ∙ u)

  keep_finish :
      (x : Executor) (h : Half) (w : World)
      → Fair st x h w
      → FairRace st (
          finish_at
            (cancel_commit st.run_id now)
            cancel_finish
            st
            h
            (record { world = w; half = h; executor = x }))
  unfolding finish_at cancel_finish interrupt_local release
  keep_finish x Half.asked w f = f
  keep_finish x Half.finished w f = f
  keep_finish Executor.returned (Half.committed none) w f = tt
  keep_finish Executor.returned (Half.committed (some i)) w f = tt
  keep_finish Executor.claimed (Half.committed none) w f = absurd f
  keep_finish Executor.claimed (Half.committed (some i)) w (m, ended, u) =
      (ended, halts_left i.running st.id w.engine m u)
  keep_finish (Executor.registered def b) (Half.committed none) w f = absurd f
  keep_finish (Executor.registered def b) (Half.committed (some i)) w (m, ended, u) =
      (ended, inr (calls_made i.running st.id w.engine m u))
  keep_finish (Executor.in_body def) (Half.committed none) w f = absurd f
  keep_finish (Executor.in_body def) (Half.committed (some i)) w (m, ended, u) =
      calls_made i.running st.id w.engine m u

  keep_enter :
      (later : ℕ) (x : Executor) (h : Half) (w : World)
      → Fair st x h w
      → FairRace st (
          enter_at
            (cancel_commit st.run_id now)
            cancel_finish
            st
            later
            x
            (record { world = w; half = h; executor = x }))
  unfolding enter_at entered
  keep_enter later Executor.returned h w f = tt
  keep_enter later (Executor.registered def b) h w f = f
  keep_enter later (Executor.in_body def) h w f = f
  keep_enter later Executor.claimed Half.asked w (k, u) =
      enter-cases st later w
        (λ x.
          FairRace st
            (entered x (record { world = w; half = Half.asked; executor = Executor.claimed })))
        (λ w'. tt) (λ def. (k, is_in-add_self st.id w.engine.cancels))
  keep_enter later Executor.claimed (Half.committed none) w f = absurd f
  keep_enter later Executor.claimed (Half.committed (some i)) w (m, ended, u) =
      enter-cases st later w
        (λ x. FairRace st (
          entered x
            (record { world = w; half = Half.committed (some i); executor = Executor.claimed })))
        (λ w'. tt) (λ def. (m, ended, is_in-add_self st.id w.engine.cancels))
  keep_enter later Executor.claimed Half.finished w (ended, halted) =
      enter-cases st later w
        (λ x.
          FairRace st
            (entered x (record { world = w; half = Half.finished; executor = Executor.claimed })))
        (λ w'. tt) (λ def. (ended, inl halted))

  keep_decide :
      (later : ℕ) (x : Executor) (h : Half) (w : World)
      → Fair st x h w
      → FairRace st (
          decide_at
            (cancel_commit st.run_id now)
            cancel_finish
            st
            later
            x
            (record { world = w; half = h; executor = x }))
  unfolding decide_at begun
  keep_decide later Executor.returned h w f = tt
  keep_decide later Executor.claimed h w f = f
  keep_decide later (Executor.in_body def) h w f = f
  keep_decide later (Executor.registered def b) Half.asked w (k, u) =
      decide-cases st later w
        (λ x.
          FairRace st (
            begun x
              (record { world = w; half = Half.asked; executor = Executor.registered def b })))
        def b (λ w'. tt) (λ e p. (k, u))
  keep_decide later (Executor.registered def b) (Half.committed none) w f = absurd f
  keep_decide later (Executor.registered def b) (Half.committed (some i)) w f =
      decide-cases st later w
        (λ x. FairRace st (
          begun x (record {
            world = w;
            half = Half.committed (some i);
            executor = Executor.registered def b;
          })))
        def b (λ w'. tt) (λ e p. f)
  keep_decide later (Executor.registered def b) Half.finished w (ended, or) =
      decide-cases st later w
        (λ x. FairRace st (
          begun x
            (record { world = w; half = Half.finished; executor = Executor.registered def b })))
        def b (λ w'. tt)
        (λ e p. elim or [ inl h ↦ absurd (ground (arith, e, ended, h)) | inr c ↦ c ])

  keep :
      (ms : List Move) (r : Race)
      → FairRace st r
      → FairRace st (play (cancel_commit st.run_id now) cancel_finish st ms r)
  unfolding play
  keep [] r f = f
  keep (Move.commit ∷ ms) r f = keep ms _ (keep_commit r.executor r.half r.world f)
  keep (Move.finish ∷ ms) r f = keep ms _ (keep_finish r.executor r.half r.world f)
  keep (Move.enter_step later ∷ ms) r f = keep ms _ (keep_enter later r.executor r.half r.world f)
  keep (Move.decide_step later ∷ ms) r f = keep ms _ (keep_decide later r.executor r.half r.world f)

Fair-in_body :
    (st : Step) (def : TaskDef) (x : Executor) (h : Half) (w : World)
    → Fair st x h w
    → h ≡ Half.finished
    → x ≡ Executor.in_body def
    → is_in st.id w.engine.cancelled ≡ true
Fair-in_body st def Executor.returned h w f e k = cc
Fair-in_body st def Executor.claimed h w f e k = cc
Fair-in_body st def (Executor.registered d b) h w f e k = cc
Fair-in_body st def (Executor.in_body d) Half.asked w f e k = cc
Fair-in_body st def (Executor.in_body d) (Half.committed i) w f e k = cc
Fair-in_body st def (Executor.in_body d) Half.finished w f e k = f

-- An ended run's tombstone bars the executor.
abbrev BarredAs : Step → Bool → World → Type 0
BarredAs st h w = HasEnded st w × (h ≡ true)

abbrev Barred : Step → World → Type 0
Barred st w = BarredAs st (is_in st.id w.engine.halt_steps) w

decides :
    (st : Step) (w : World) (halted : Bool)
    → BarredAs st halted w
    → (halted && is_run_terminal st.run_id w.db) ≡ false
    → is_in st.id w.engine.pause_steps ≡ false
    → ⊥
decides st w halted (ended, h) e p = ground arith

claimed-Barred :
    (st : Step) (x : Executor) (h : Half) (w : World)
    → Fair st x h w
    → h ≡ Half.finished
    → x ≡ Executor.claimed
    → Barred st w
claimed-Barred st Executor.returned h w f e k = cc
claimed-Barred st (Executor.registered d b) h w f e k = cc
claimed-Barred st (Executor.in_body d) h w f e k = cc
claimed-Barred st Executor.claimed Half.asked w f e k = cc
claimed-Barred st Executor.claimed (Half.committed i) w f e k = cc
claimed-Barred st Executor.claimed Half.finished w f e k = f

claimed-LateRace :
    (st : Step) (now : ℕ) (r : Race)
    → r.half ≡ Half.finished
    → r.executor ≡ Executor.claimed
    → Barred st r.world
    → LateRace
        (cancel_commit st.run_id now)
        cancel_finish
        st
        (Barred st)
        (BarredAs st)
        (λ w b. b)
        (decides st)
        r
claimed-LateRace st now r done claimed barred =
    subst
      (λ x.
        TooLate (cancel_commit st.run_id now) cancel_finish st (Barred st) (BarredAs st) (λ w b. b)
          (decides st) x r.half r.world)
      (sym claimed) (done, barred)

-- Cancel reaches the executor of a claimed step however the two interleave. Take a run that is not
-- ephemeral and has not ended, one of its RUNNING steps whose executor has not registered a cancel function,
-- and any sequence of moves of the two goroutines in which Cancel gets through, followed by any others: if
-- the executor then is in the step's body, its cancel function has been called, and it had left the claim
-- before Cancel got through.
pub cancel_race :
    (st : Step) (now : ℕ) (w : World) (run : Run) (ms later : List Move) (def : TaskDef)
    → first (is_run st.run_id) w.db.runs ≡ some run
    → is_terminal run.status ≡ false
    → run.ephemeral ≡ false
    → Memᴰ st w.db.steps
    → st.status ≡ Status.running
    → is_in st.id w.engine.cancels ≡ false
    → let through = play (cancel_commit st.run_id now) cancel_finish st ms (at_start w) in
      let final = play (cancel_commit st.run_id now) cancel_finish st later through in
      through.half ≡ Half.finished
      → final.executor ≡ Executor.in_body def
      → (is_in st.id final.world.engine.cancelled ≡ true) × (through.executor ≢ Executor.claimed)
cancel_race st now w run ms later def found live kept m running unregistered done in_body =
    let through = play (cancel_commit st.run_id now) cancel_finish st ms (at_start w) in
    let final = play (cancel_commit st.run_id now) cancel_finish st later through in
    let ready : IsKept st w.db = record {
      run = run;
      found = found;
      live = live;
      wanted = kept;
      member = m;
      running = running;
    } in
    let fair = keep st now ms (at_start w) (ready, unregistered) in
    let still = still-play (cancel_commit st.run_id now) cancel_finish st later through done in
    let fair' = keep st now later through fair in
    (
      Fair-in_body st def final.executor final.half final.world fair' still in_body,
      λ claimed.
          LateRace-not_in_body (cancel_commit st.run_id now) cancel_finish st (Barred st)
            (BarredAs st) (λ w b. b) (decides st) def later through
            (claimed-LateRace st now through done claimed
              (claimed-Barred st through.executor through.half through.world fair done claimed))
            in_body,
    )
