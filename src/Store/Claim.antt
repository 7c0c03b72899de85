-- ===== src/Store/Claim.antt =====
-- ClaimDue and ClaimDueMulti of internal/store/queries.go: due steps are moved to RUNNING in one write
-- transaction. The claim lock makes the batch atomic, so it is a function of the database.
pub mod Loop
pub mod KeyLimit
pub mod Rate
pub mod Order
pub mod Paused
pub mod Report
pub mod Shares
use quacker.Prelude.{
  ℕ, ◌+◌, ◌-◌, String, Bool, not, ◌&&◌, ◌||◌, List, [], ◌∷◌, ◌++◌, Option, none, some, map, ltb,
  leb, ◌==◌, lt_ℤ, str_eq, if◌then◌else◌, take,
}
use quacker.Table.{select, first, count, update, order_by}
use quacker.Store.Model.{Status, is, Run, Step, Db}
use quacker.Store.Gates.{gates, label_gate}

pub record Claim : Type 0 where
  pub step : Step
  pub run : Option Run
  pub resumed : Bool

pub record QueueClaim : Type 0 where
  pub name : String
  pub limit : ℕ
  pub rate_limit : ℕ
  pub rate_window : ℕ

-- The claiming worker: its labels, its id, and the lease that a claim is stamped with.
pub record Worker : Type 0 where
  pub labels : List String
  pub id : String
  pub lease_until : ℕ

-- status QUEUED and due, or SUSPENDED with a wake time that has come
unfoldable pub is_due : ℕ → Step → Bool
is_due now s =
    is Status.queued s.status && leb s.run_at now
    || is Status.suspended s.status && (ltb 0 s.resume_at && leb s.resume_at now)

unfoldable pub is_candidate : Db → String → ℕ → List String → Step → Bool
is_candidate db queue now labels s =
    str_eq s.queue queue && (is_due now s && (gates db s && label_gate labels s))

-- ORDER BY priority DESC, run_at ASC, ord ASC
unfoldable pub claimed_before : Step → Step → Bool
claimed_before a b =
    lt_ℤ b.priority a.priority
    || not (lt_ℤ a.priority b.priority)
      && (ltb a.run_at b.run_at || a.run_at == b.run_at && ltb a.ord b.ord)

-- claimCandidatesSQL
unfoldable pub claim_candidates : Db → String → ℕ → List String → ℕ → List Step
claim_candidates db queue now labels limit =
    take limit (order_by claimed_before (select (is_candidate db queue now labels) db.steps))

-- A claim's time window: the steps of the queue that were claimed in it.
abbrev pub claimed_since : String → ℕ → Step → Bool
claimed_since queue since s = str_eq s.queue queue && leb since s.claimed_at

abbrev pub second : ℕ
second = 1_000_000_000

abbrev pub window_of : QueueClaim → ℕ
window_of q = if q.rate_window == 0 then second else q.rate_window

-- What the queue may start now. The source's differences are negative where these are 0, and a
-- limit below 1 claims nothing either way; a cutoff before 0 admits every row, like 0.
unfoldable pub claim_limit : Db → QueueClaim → ℕ → ℕ
claim_limit db q now =
    if q.rate_limit == 0
    then q.limit
    else (let remaining =
          q.rate_limit - count (claimed_since q.name (now - window_of q)) db.steps in
        if ltb remaining q.limit then remaining else q.limit)

-- The WHERE of the guarded UPDATE: `st` is the candidate and `r` the row as it now stands.
unfoldable pub still_claimable : Db → ℕ → Step → Step → Bool
still_claimable db now st r =
    str_eq r.id st.id
    && ((if is Status.suspended st.status
          then is Status.suspended r.status && (ltb 0 r.resume_at && leb r.resume_at now)
          else is Status.queued r.status)
        && gates db r)

-- Its SET. A resume spends start budget but is no new attempt.
unfoldable pub claim_row : Worker → ℕ → Step → Step → Step
claim_row w now st r =
    if is Status.suspended st.status
    then record r {
      status = Status.running;
      claimed_at = now;
      resume_at = 0;
      wait_kind = "";
      wait_event = "";
      worker_id = w.id;
      lease_expires_at = w.lease_until;
    }
    else record r {
      status = Status.running;
      attempts = r.attempts + 1;
      claimed_at = now;
      started_at = if r.started_at == 0 then now else r.started_at;
      worker_id = w.id;
      lease_expires_at = w.lease_until;
    }

-- The run of a fresh claim starts, unless it already has.
unfoldable pub start_run : ℕ → Step → List Run → List Run
start_run now st =
    update (λ r. str_eq r.id st.run_id && is Status.queued r.status)
      λ r. record r {
        status = Status.running;
        attempts = r.attempts + 1;
        started_at = if r.started_at == 0 then now else r.started_at;
      }

-- The candidate as the claim reports it.
unfoldable pub claim_of : Worker → ℕ → Step → Claim
claim_of w now st =
    let resumed = is Status.suspended st.status in
    record {
      step = record st {
        status = Status.running;
        attempts = if resumed then st.attempts else st.attempts + 1;
        started_at =
            if resumed then st.started_at else if st.started_at == 0 then now else st.started_at;
        claimed_at = now;
        resume_at = 0;
        worker_id = w.id;
        lease_expires_at = w.lease_until;
      };
      run = none;
      resumed = resumed;
    }

-- One round of the loop over the candidates. A row that was moved, or whose key filled up in this
-- batch, is skipped.
unfoldable pub claim_step : Worker → ℕ → Db → Step → Db × List Claim
claim_step w now db st =
    let steps = update (still_claimable db now st) (claim_row w now st) db.steps in
    if count (still_claimable db now st) db.steps == 1
    then (
      record db {
        steps = steps;
        runs = if is Status.suspended st.status then db.runs else start_run now st db.runs;
      },
      claim_of w now st ∷ [],
    )
    else (record db { steps = steps }, [])

unfoldable pub claim_each : Worker → ℕ → Db → List Step → Db × List Claim
claim_each w now db [] = (db, [])
claim_each w now db (st ∷ rest) =
    let (db1, cs) = claim_step w now db st in
    let (db2, more) = claim_each w now db1 rest in (db2, cs ++ more)

-- claimQueueTx. Both returns on a limit below 1 are the empty list of candidates.
unfoldable pub claim_queue : Worker → ℕ → Db → QueueClaim → Db × List Claim
claim_queue w now db q =
    claim_each w now db (claim_candidates db q.name now w.labels (claim_limit db q now))

unfoldable pub claim_queues : Worker → ℕ → Db → List QueueClaim → Db × List Claim
claim_queues w now db [] = (db, [])
claim_queues w now db (q ∷ qs) =
    let (db1, cs) = claim_queue w now db q in
    let (db2, more) = claim_queues w now db1 qs in (db2, cs ++ more)

-- The run row of a claim, as the batch query attaches it.
unfoldable pub attach_run : Db → ℕ → Claim → Claim
attach_run db now c = elim (first (λ r. str_eq r.id c.step.run_id) db.runs) [
  | none ↦ c
  | some r ↦ record c {
    run = some (record r {
      status = Status.running;
      started_at = if r.started_at == 0 then now else r.started_at;
    });
  }
]

unfoldable pub claim_due_multi : Worker → ℕ → Db → List QueueClaim → Db × List Claim
claim_due_multi w now db qs =
    let (db', claims) = claim_queues w now db qs in (db', map (attach_run db' now) claims)

-- ClaimDue
unfoldable pub claim_due : Worker → ℕ → Db → QueueClaim → Db × List Claim
claim_due w now db q = claim_due_multi w now db (q ∷ [])
