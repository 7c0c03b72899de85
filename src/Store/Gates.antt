-- ===== src/Store/Gates.antt =====
-- The predicates of the claim path (driver/driver.go, internal/store/sqlite.go and queries.go): the
-- gates that a step has to pass to be moved to RUNNING.
use quacker.Prelude.{
  String, Bool, true, not, ◌≡◌, arith, ◌&&◌, ◌||◌, List, ltb, leb, ◌==◌, str_eq, any, all,
}
use quacker.Table.{count}
use quacker.Store.Model.{Status, is, is_active, Step, StepKey, StepKeyRow, Db}

-- CorrelatedKeyGate: fewer than key_limit RUNNING steps share the step's concurrency_key.
abbrev pub has_key : String → Step → Bool
has_key key s = str_eq s.concurrency_key key

abbrev pub runs_with_key : String → Step → Bool
runs_with_key key s = has_key key s && is Status.running s.status

unfoldable pub key_gate : List Step → Step → Bool
key_gate steps st =
    str_eq st.concurrency_key ""
    || (st.key_limit == 0 || ltb (count (runs_with_key st.concurrency_key) steps) st.key_limit)

-- CorrelatedSequenceGate: no earlier step of the same sequence is unfinished.
abbrev pub is_earlier : Step → Step → Bool
is_earlier st s2 =
    str_eq s2.sequence_key st.sequence_key
    && (not (str_eq s2.sequence_key "") && (ltb s2.seq st.seq && is_active s2.status))

unfoldable pub seq_gate : List Step → Step → Bool
seq_gate steps st = not (any (is_earlier st) steps)

-- CorrelatedKeysGate: every extra key of the step has a free slot.
abbrev pub holds_key : List Step → StepKey → StepKeyRow → Bool
holds_key steps k k2 =
    str_eq k2.key.name k.name
    && (str_eq k2.key.value k.value
        && any (λ s2. str_eq s2.id k2.step_id && is Status.running s2.status) steps)

unfoldable pub keys_gate : Db → Step → Bool
keys_gate db st = not (
    any
      (λ row.
        str_eq row.step_id st.id
        && (ltb 0 row.key.limit
            && leb row.key.limit (count (holds_key db.steps row.key) db.step_keys)))
      db.step_keys)

-- queuePausedGate
unfoldable pub queue_paused_gate : Db → Step → Bool
queue_paused_gate db st = not (any (λ q. str_eq q st.queue) db.queue_pauses)

-- runNotPausedGate
unfoldable pub run_not_paused_gate : Db → Step → Bool
run_not_paused_gate db st =
    not (any (λ r. str_eq r.id st.run_id && is Status.paused r.status) db.runs)

-- LabelGate: the step's labels are among the worker's.
unfoldable pub label_gate : List String → Step → Bool
label_gate worker_labels st = all (λ l. any (λ w. str_eq l w) worker_labels) st.labels

-- The gates that the candidate query and both UPDATE arms share.
unfoldable pub gates : Db → Step → Bool
gates db st =
    key_gate db.steps st
    && (queue_paused_gate db st
        && (run_not_paused_gate db st && (seq_gate db.steps st && keys_gate db st)))

pub gates_parts :
    (db : Db) (st : Step)
    → gates db st ≡ true
    → (key_gate db.steps st ≡ true)
      × (queue_paused_gate db st ≡ true)
      × (run_not_paused_gate db st ≡ true)
      × (seq_gate db.steps st ≡ true)
      × (keys_gate db st ≡ true)
unfolding gates
gates_parts db st h = ground arith
