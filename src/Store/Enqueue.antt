-- ===== src/Store/Enqueue.antt =====
-- Enqueues of internal/store/queries.go: CreateRunsUnique with unique keys and cancel strategies, and
-- FireCron. One transaction each. The statements that insertRunsChunk splits by the parameter budget
-- are one insert here; rows of one statement are checked one by one.
pub mod OneByOne
pub mod Inserts
pub mod Batching
pub mod Holders
pub mod Unique
pub mod Firing
pub mod History
use quacker.Prelude.{
  ℕ, zero, suc, ◌+◌, ◌-◌, String, Bool, true, false, not, ◌&&◌, ◌||◌, List, [], ◌∷◌, ◌++◌, Option,
  none, some, map, ltb, leb, ◌==◌, str_eq, if◌then◌else◌, any, length, take, drop,
}
use quacker.Table.{select, first, count, update, order_by}
use quacker.Store.Model.{
  Status, is, is_terminal, is_active, Run, Step, StepKey, StepKeyRow, Cron, Db, Result, ok, err,
  ◌>>=◌, unique_violation, duplicate_job, batch_mismatch,
}
use quacker.Store.Complete.{is_run, cancel_step_row, delete_ephemeral_run}
use quacker.Store.Lifecycle.{cancel_run_tx, cancel_row, running_steps}

pub data UniqueConflict : Type 0 where
  unique_reuse unique_error unique_replace : UniqueConflict

pub data ConcurrencyStrategy : Type 0 where
  hold cancel_in_progress cancel_newest : ConcurrencyStrategy
  cancel_queued_except_newest cancel_queued_except_oldest : ConcurrencyStrategy

pub record KeyPolicy : Type 0 where
  pub key : String
  pub limit : ℕ
  pub strategy : ConcurrencyStrategy

abbrev pub no_policy : KeyPolicy
no_policy = record { key = ""; limit = 0; strategy = ConcurrencyStrategy.hold }

pub record ReplacedRun : Type 0 where
  pub run_id : String
  pub running_steps : List String

-- One place of the parallel argument slices.
pub record Job : Type 0 where
  pub run : Run
  pub steps : List Step
  pub conflict : UniqueConflict
  pub policy : KeyPolicy

-- runInsertRow: the columns that the INSERT sets by a literal or leaves to their defaults.
unfoldable pub inserted_run : Run → Run
inserted_run r = record r {
  output = [];
  error = "";
  attempts = 0;
  started_at = 0;
  completed_at = 0;
  paused_at = 0;
  dead_lettered_at = 0;
}

-- stepInsertRow; the keys go to their own table.
unfoldable pub inserted_step : Step → Step
inserted_step s = record s {
  output = [];
  error = "";
  attempts = 0;
  started_at = 0;
  completed_at = 0;
  claimed_at = 0;
  resume_at = 0;
  wait_kind = "";
  wait_event = "";
  worker_id = "";
  lease_expires_at = 0;
  keys = [];
}

-- uq_runs_unique: the run holds (workflow, unique_key); an empty key is NULL, which never collides.
unfoldable pub holds_unique : String → String → Run → Bool
holds_unique workflow key r =
    not (str_eq key "") && (str_eq r.workflow workflow && str_eq r.unique_key key)

-- The primary key of runs and the unique index.
unfoldable pub collides : Run → Run → Bool
collides run r = str_eq r.id run.id || holds_unique run.workflow run.unique_key r

abbrev pub is_key_row : String → StepKey → StepKeyRow → Bool
is_key_row step_id k row = str_eq row.step_id step_id && str_eq row.key.name k.name

-- One row of step_keys, and one of steps, each into its own table.
unfoldable pub insert_key : StepKeyRow → Db → Result Db
insert_key row db =
    if any (is_key_row row.step_id row.key) db.step_keys
    then err unique_violation
    else ok (record db { step_keys = db.step_keys ++ row ∷ [] })

unfoldable pub insert_step : Step → Db → Result Db
insert_step st db =
    if any (λ s. str_eq s.id st.id) db.steps
    then err unique_violation
    else ok (record db { steps = db.steps ++ inserted_step st ∷ [] })

unfoldable pub insert_run : Run → Db → Result Db
insert_run run db =
    if any (collides run) db.runs
    then err unique_violation
    else ok (record db { runs = db.runs ++ inserted_run run ∷ [] })

-- A multi-row INSERT: the rows in their order.
unfoldable pub insert_each : {A : Type 0} → (A → Db → Result Db) → List A → Db → Result Db
insert_each insert [] db = ok db
insert_each insert (x ∷ xs) db = insert x db >>= insert_each insert xs

unfoldable pub all_steps : List Job → List Step
all_steps [] = []
all_steps (j ∷ js) = j.steps ++ all_steps js

abbrev pub key_rows : String → List StepKey → List StepKeyRow
key_rows step_id keys = map {A = StepKey} (λ k. record { step_id = step_id; key = k }) keys

unfoldable pub all_keys : List Step → List StepKeyRow
all_keys [] = []
all_keys (st ∷ sts) = key_rows st.id st.keys ++ all_keys sts

-- insertRunsChunk: the runs, then all of their steps, then all of the steps' keys.
unfoldable pub insert_chunk : List Job → Db → Result Db
unfolding insert_each all_steps all_keys
insert_chunk js db =
    insert_each insert_run (map (λ j. j.run) js) db
    >>= insert_each insert_step (all_steps js)
    >>= insert_each insert_key (all_keys (all_steps js))

-- The loop of insertRunsTx over chunks of `batch` runs: the chunk so far, with the room left in it.
unfoldable pub insert_chunks : ℕ → ℕ → List Job → List Job → Db → Result Db
unfolding insert_chunk
insert_chunks batch room chunk [] db = insert_chunk chunk db
insert_chunks batch zero chunk (j ∷ js) db =
    insert_chunk chunk db >>= insert_chunks batch (batch - 1) (j ∷ []) js
insert_chunks batch (suc room) chunk (j ∷ js) db = insert_chunks batch room (chunk ++ j ∷ []) js db

-- InsertBatchRows of the SQLite backend.
abbrev pub insert_batch : ℕ
insert_batch = 25

-- insertRunsTx on a batch and on one run.
unfoldable pub insert_jobs : List Job → Db → Result Db
unfolding insert_chunks
insert_jobs js db = insert_chunks insert_batch insert_batch [] js db

unfoldable pub insert_job : Job → Db → Result Db
unfolding insert_jobs
insert_job j db = insert_jobs (j ∷ []) db

-- allocSeq
abbrev pub is_sequenced : Job → Bool
is_sequenced j = not (str_eq j.run.sequence_key "") || not (str_eq j.policy.key "")

unfoldable pub alloc_seq : ℕ → Db → Db × ℕ
alloc_seq n db = (record db { next_seq = db.next_seq + n }, db.next_seq)

-- The run takes the next number, and its steps the run's sequence.
unfoldable pub number_job : ℕ → Job → Job
number_job seq j = record j {
  run = record j.run { seq = seq };
  steps = map {A = Step} (λ s. record s { sequence_key = j.run.sequence_key; seq = seq }) j.steps;
}

-- liveRunByUnique
unfoldable pub live_run_by_unique : String → String → Db → Option Run
live_run_by_unique workflow key db =
    first (λ r. true)
      (order_by (λ a b. ltb a.created_at b.created_at)
        (select
          (λ r.
            str_eq r.workflow workflow && (str_eq r.unique_key key && not (is_terminal r.status)))
          db.runs))

-- replaceRunTx
unfoldable pub replace_run : String → ℕ → Db → Db
replace_run run_id now db = record db {
  runs = update (is_run run_id) (cancel_row now) db.runs;
  steps = update (λ s. str_eq s.run_id run_id && is_active s.status) (cancel_step_row now) db.steps;
}

-- cancelOrDeleteRunTx
unfoldable pub cancel_or_delete_run : String → ℕ → Db → Db × List String
cancel_or_delete_run run_id now db = elim (first (is_run run_id) db.runs) [
  | none ↦ (db, [])
  | some run ↦ (
    if run.ephemeral then delete_ephemeral_run run_id db else cancel_run_tx run_id now db,
    running_steps run_id db,
  )
]

-- applyConcurrencyStrategy: the unfinished runs of the key in insertion order, and the victims.
unfoldable pub key_candidates : Run → Db → List Run
key_candidates run db =
    order_by (λ a b. ltb a.seq b.seq || a.seq == b.seq && ltb a.created_at b.created_at)
      (select (λ r. str_eq r.concurrency_key run.concurrency_key && not (is_terminal r.status))
        db.runs)

unfoldable pub victims_of : ConcurrencyStrategy → ℕ → List Run → List Run
victims_of ConcurrencyStrategy.hold limit cands = []
victims_of ConcurrencyStrategy.cancel_newest limit cands = drop (length cands - 1) cands
victims_of ConcurrencyStrategy.cancel_in_progress limit cands = take (length cands - limit) (
    select (λ r. is Status.running r.status) cands
    ++ select (λ r. not (is Status.running r.status)) cands)
victims_of ConcurrencyStrategy.cancel_queued_except_newest limit cands =
    let queued = select (λ r. is Status.queued r.status) cands in
    take (length queued - limit) queued
victims_of ConcurrencyStrategy.cancel_queued_except_oldest limit cands =
    drop limit (select (λ r. is Status.queued r.status) cands)

unfoldable pub cancel_victims : ℕ → List Run → Db → Db × List ReplacedRun
cancel_victims now [] db = (db, [])
cancel_victims now (r ∷ rs) db =
    let (db1, running) = cancel_or_delete_run r.id now db in
    let (db2, out) = cancel_victims now rs db1 in
    (db2, record { run_id = r.id; running_steps = running } ∷ out)

unfoldable pub apply_concurrency_strategy :
    Run → ℕ → ConcurrencyStrategy → ℕ → Db → Db × List ReplacedRun
apply_concurrency_strategy run limit strategy now db =
    let cands = key_candidates run db in
    if leb (length cands) limit
    then (db, [])
    else cancel_victims now (victims_of strategy limit cands) db

-- The state of the loop of createRunsUniqueTx: the runs that wait for the next multi-row insert, the
-- effective ids and the replaced runs so far, and the last sequence number given out.
pub record Enqueue : Type 0 where
  pub db : Db
  pub pending : List Job
  pub ids : List String
  pub replaced : List ReplacedRun
  pub seq : ℕ

abbrev pub is_hold : ConcurrencyStrategy → Bool
is_hold ConcurrencyStrategy.hold = true
is_hold _ = false

abbrev pub uses_strategy : Job → Bool
uses_strategy j =
    not (is_hold j.policy.strategy) && (not (str_eq j.policy.key "") && ltb 0 j.policy.limit)

abbrev pub is_immediate : Job → Bool
is_immediate j = not (str_eq j.run.unique_key "") || uses_strategy j

-- A numbered job that is inserted on its own, then its strategy.
unfoldable pub insert_now : ℕ → Job → Db → Result (Db × List ReplacedRun)
insert_now now j db = insert_job j db >>= λ db1. ok (
    if uses_strategy j
    then apply_concurrency_strategy j.run j.policy.limit j.policy.strategy now db1
    else (db1, []))

-- What a job that is not batched does: the database, its effective id, and the runs it replaced.
pub record Placed : Type 0 where
  pub db : Db
  pub id : String
  pub replaced : List ReplacedRun

unfoldable pub place_fresh : ℕ → Job → List ReplacedRun → Db → Result Placed
place_fresh now j replaced db =
    insert_now now j db >>= λ r. ok (record { db = r.0; id = j.run.id; replaced = replaced ++ r.1 })

unfoldable pub resolve_conflict : ℕ → Job → Run → Db → Result Placed
resolve_conflict now j existing db = elim j.conflict [
  | UniqueConflict.unique_reuse ↦ ok (record { db = db; id = existing.id; replaced = [] })
  | UniqueConflict.unique_error ↦ err duplicate_job
  | UniqueConflict.unique_replace ↦
      place_fresh now j
        (record { run_id = existing.id; running_steps = running_steps existing.id db } ∷ [])
        (replace_run existing.id now db)
]

unfoldable pub place_unique : ℕ → Job → Db → Result Placed
place_unique now j db = elim (live_run_by_unique j.run.workflow j.run.unique_key db) [
  | none ↦ place_fresh now j [] db
  | some existing ↦ resolve_conflict now j existing db
]

unfoldable pub place : ℕ → Job → Db → Result Placed
place now j db =
    if str_eq j.run.unique_key "" then place_fresh now j [] db else place_unique now j db

-- The number that a run takes, and the run with it.
abbrev pub next_seq_of : Job → ℕ → ℕ
next_seq_of j seq = if is_sequenced j then seq + 1 else seq

abbrev pub numbered : Job → ℕ → Job
numbered j seq = if is_sequenced j then number_job seq j else j

-- One round of the loop, and the loop.
unfoldable pub enqueue_numbered : ℕ → ℕ → Job → Enqueue → Result Enqueue
enqueue_numbered now seq j e =
    let batched =
      ok (record e { pending = e.pending ++ j ∷ []; ids = e.ids ++ j.run.id ∷ []; seq = seq }) in
    let placed : Result Enqueue = insert_jobs e.pending e.db >>= λ db1. place now j db1 >>= λ p.
    ok (record {
      db = p.db;
      pending = [];
      ids = e.ids ++ p.id ∷ [];
      replaced = e.replaced ++ p.replaced;
      seq = seq;
    }) in
    if is_immediate j then placed else batched

unfoldable pub enqueue_step : ℕ → Job → Enqueue → Result Enqueue
enqueue_step now j e =
    enqueue_numbered now (next_seq_of j e.seq) (numbered j (next_seq_of j e.seq)) e

unfoldable pub enqueue_each : ℕ → List Job → Enqueue → Result Enqueue
enqueue_each now [] e = ok e
enqueue_each now (j ∷ js) e = enqueue_step now j e >>= enqueue_each now js

-- The closing flush.
unfoldable pub flush : Enqueue → Result Enqueue
flush e = insert_jobs e.pending e.db >>= λ db1. ok (record e { db = db1; pending = [] })

-- createRunsUniqueTx on jobs.
unfoldable pub start_enqueue : List Job → Db → Enqueue
start_enqueue js db =
    let (db1, base) = alloc_seq (count is_sequenced js) db in
    record { db = db1; pending = []; ids = []; replaced = []; seq = base }

unfoldable pub create_jobs : ℕ → List Job → Db → Result Enqueue
create_jobs now js db = enqueue_each now js (start_enqueue js db) >>= flush

-- The parallel slices; no policies stand for an empty one each.
unfoldable pub jobs_of :
    List Run → List (List Step) → List UniqueConflict → List KeyPolicy → Result (List Job)
jobs_of [] [] [] [] = ok []
jobs_of (r ∷ rs) (s ∷ ss) (c ∷ cs) (p ∷ ps) =
    jobs_of rs ss cs ps >>= λ js. ok (record { run = r; steps = s; conflict = c; policy = p } ∷ js)
jobs_of rs ss cs ps = err batch_mismatch

abbrev pub policies_of : List Run → List KeyPolicy → List KeyPolicy
policies_of rs ps = elim ps [ [] ↦ map (λ r. no_policy) rs | q ∷ qs ↦ q ∷ qs ]

-- CreateRunsUnique
unfoldable pub create_runs_unique :
    ℕ → List Run → List (List Step) → List UniqueConflict → List KeyPolicy → Db → Result Enqueue
create_runs_unique now rs ss cs ps db =
    jobs_of rs ss cs (policies_of rs ps) >>= λ js. create_jobs now js db

-- FireCron: the occurrence is claimed by a compare-and-set on next_at.
abbrev pub is_occurrence : String → ℕ → Cron → Bool
is_occurrence name expect_next c = str_eq c.name name && c.next_at == expect_next

unfoldable pub fire_cron : String → ℕ → ℕ → Job → Db → Result (Db × Bool)
fire_cron name expect_next new_next j db =
    let db1 = record db {
      crons =
          update (is_occurrence name expect_next) (λ c. record c { next_at = new_next }) db.crons;
    } in
    let fired = insert_job j db1 >>= λ db2. ok (db2, true) in
    if count (is_occurrence name expect_next) db.crons == 1 then fired else ok (db1, false)
