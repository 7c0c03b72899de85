-- ===== src/Store/Journal.antt =====
-- The durable-await journal of internal/store/journal.go: suspension, timeouts and event delivery.
pub mod Settled
use quacker.Prelude.{
  ℕ, String, Bool, true, false, not, ◌&&◌, List, [], ◌∷◌, ◌++◌, Option, ◌==◌, str_eq, if◌then◌else◌,
  any, length,
}
use quacker.Table.{select, first, count, update, order_by}
use quacker.Store.Model.{
  Status, is, is_terminal, Bytes, Step, JournalKind, JournalEntry, Db, Result, ok, err,
  step_not_running, unique_violation,
}
use quacker.Prelude.{ltb}

-- LoadJournal: the entries of a step in call order.
unfoldable pub load_journal : Db → String → List JournalEntry
load_journal db step_id =
    order_by (λ a b. ltb a.idx b.idx) (select (λ e. str_eq e.step_id step_id) db.journal)

abbrev pub is_entry : String → ℕ → JournalEntry → Bool
is_entry step_id idx e = str_eq e.step_id step_id && e.idx == idx

-- AppendJournal: the primary key is (step_id, idx).
unfoldable pub append_journal : JournalEntry → Db → Result Db
append_journal e db =
    if any (is_entry e.step_id e.idx) db.journal
    then err unique_violation
    else ok (record db { journal = db.journal ++ e ∷ [] })

-- CompleteJournalOnce
unfoldable pub complete_journal_once : String → ℕ → Bytes → String → Db → Db
complete_journal_once step_id idx result msg db = record db {
  journal =
      update (is_entry step_id idx) (λ e. record e { done = true; result = result; err = msg })
        db.journal;
}

abbrev pub is_running_row : String → Step → Bool
is_running_row id s = str_eq s.id id && is Status.running s.status

abbrev pub suspend_row : String → String → ℕ → Step → Step
suspend_row wait_kind wait_event resume_at s = record s {
  status = Status.suspended;
  resume_at = resume_at;
  wait_kind = wait_kind;
  wait_event = wait_event;
}

-- SuspendStep
unfoldable pub suspend_step : String → String → String → ℕ → Db → Result Db
suspend_step id wait_kind wait_event resume_at db =
    if count (is_running_row id) db.steps == 1
    then ok (record db {
      steps = update (is_running_row id) (suspend_row wait_kind wait_event resume_at) db.steps;
    })
    else err step_not_running

-- SuspendWithJournal: the entry and the suspension are one transaction.
unfoldable pub suspend_with_journal : JournalEntry → String → String → ℕ → Db → Result Db
unfolding append_journal
suspend_with_journal e wait_kind wait_event resume_at db =
    if count (is_running_row e.step_id) db.steps == 1
    then append_journal e (record db {
      steps =
          update (is_running_row e.step_id) (suspend_row wait_kind wait_event resume_at) db.steps;
    })
    else err step_not_running

-- GetJournalEntry
unfoldable pub get_journal_entry : Db → String → ℕ → Option JournalEntry
get_journal_entry db step_id idx = first (is_entry step_id idx) db.journal

abbrev pub is_undone : String → ℕ → JournalEntry → Bool
is_undone step_id idx e = is_entry step_id idx e && not e.done

-- TimeoutWait
unfoldable pub timeout_wait : String → ℕ → Db → Db × Bool
timeout_wait step_id idx db = (
  record db {
    journal =
        update (is_undone step_id idx) (λ e. record e { timed_out = true; done = true }) db.journal;
  },
  count (is_undone step_id idx) db.journal == 1,
)

abbrev pub is_wait : JournalKind → Bool
is_wait JournalKind.wait = true
is_wait _ = false

-- The waits that an event may satisfy: undone, for this event, of a step whose run has not ended.
unfoldable pub is_delivery : Db → String → JournalEntry → Bool
is_delivery db name e =
    is_wait e.kind
    && (not e.done
        && (str_eq e.event name
            && any
                (λ s.
                  str_eq s.id e.step_id
                  && any (λ r. str_eq r.id s.run_id && not (is_terminal r.status)) db.runs)
                db.steps))

-- The loop over the candidates; the ids of those that this delivery satisfied.
unfoldable pub deliver_each :
    Bytes → List JournalEntry → List JournalEntry → List JournalEntry × List String
deliver_each payload [] journal = (journal, [])
deliver_each payload (w ∷ rest) journal =
    let n = count (is_undone w.step_id w.idx) journal in
    let journal1 =
      update (is_undone w.step_id w.idx) (λ e. record e { payload = payload; done = true })
        journal in
    let (journal2, ids) = deliver_each payload rest journal1 in
    (journal2, if n == 1 then w.step_id ∷ ids else ids)

abbrev pub is_suspended_row : String → Step → Bool
is_suspended_row id s = str_eq s.id id && is Status.suspended s.status

abbrev pub wake_row : Step → Step
wake_row s = record s { status = Status.queued; resume_at = 0; wait_kind = ""; wait_event = "" }

unfoldable pub wake_each : List String → List Step → List Step
wake_each [] steps = steps
wake_each (id ∷ ids) steps = wake_each ids (update (is_suspended_row id) wake_row steps)

-- DeliverEvent
unfoldable pub deliver_event : String → Bytes → ℕ → Db → Db × ℕ
deliver_event name payload now db =
    let waiting = select (is_delivery db name) db.journal in
    let (journal, ids) = deliver_each payload waiting db.journal in
    (
      record db {
        events = db.events ++ record { name = name; payload = payload; created_at = now } ∷ [];
        journal = journal;
        steps = wake_each ids db.steps;
      },
      length ids,
    )
