-- ===== src/Engine/DurableExamples.antt =====
-- The theorems on the durable helpers at a concrete step.
use quacker.Prelude.{ℕ, ◌≡◌, ◌↔◌, Bool, refl, true, false, [], ◌∷◌, Option, none, some, inr, arith}
use quacker.Table.{select, order_by, first, count}
use quacker.Store.Model.{Bytes, JournalKind, JournalEntry, Db, empty_db}
use quacker.Store.Journal.{load_journal}
use quacker.Engine.Durable.{
  StepState, Helped, HelperError, take_entry, new_entry, run_once, wait_for, decoded,
}
use quacker.Engine.Durable.Replay.{IsCaughtUp, replayed, run_once-replayed}
use quacker.Engine.Durable.Waits.{call, is_misaligned_at, call_misaligned, wait_for_delivered}

abbrev encode_number : ℕ → Option Bytes
encode_number n = some (n ∷ [])

abbrev decode_number : Bytes → Option ℕ
decode_number [] = none
decode_number (b ∷ bs) = some b

abbrev at_start : StepState
at_start = record { step_id = "r/a"; cursor = 0; journal = [] }

at_start-IsCaughtUp : IsCaughtUp at_start empty_db
unfolding load_journal select order_by
at_start-IsCaughtUp = record { loaded = refl; at_end = refl; numbered = λ e m. elim m [ ] }

abbrev charged_db : Db
charged_db = (run_once 0 encode_number decode_number "charge" (inr 7) empty_db at_start).db

run_once-replayed_example :
    ((run_once 0 encode_number decode_number "charge"
        (inr 9)
        charged_db
        (replayed at_start charged_db)).result
      ≡ Helped.value 7)
    × ((run_once 0 encode_number decode_number "charge"
          (inr 9)
          charged_db
          (replayed at_start charged_db)).ran
        ≡ false)
    × ((run_once 0 encode_number decode_number "charge"
          (inr 9)
          charged_db
          (replayed at_start charged_db)).db
        ≡ charged_db)
run_once-replayed_example =
    run_once-replayed 0 encode_number decode_number "charge" 7 7 [] (inr 9) empty_db at_start refl
      refl at_start-IsCaughtUp

-- The step waits for the event "paid" until 20.
abbrev paid_wait : JournalEntry
paid_wait = record (new_entry JournalKind.wait at_start) { event = "paid"; deadline = 20 }

abbrev waiting : StepState
waiting = record at_start { journal = paid_wait ∷ [] }

abbrev shipped : Option HelperError × Db × Bool
shipped =
    call 0 encode_number decode_number JournalKind.wait "shipped" (inr 1) 5 30 empty_db waiting

call_misaligned_example :
    ((shipped.0 ≡ some HelperError.misaligned)
      ↔ (is_misaligned_at JournalKind.wait "shipped" waiting ≡ true))
    × ((shipped ≡ (some HelperError.misaligned, empty_db, false))
        ↔ (is_misaligned_at JournalKind.wait "shipped" waiting ≡ true))
call_misaligned_example =
    call_misaligned 0 encode_number decode_number JournalKind.wait "shipped" (inr 1) 5 30 empty_db
      waiting

shipped_refused : is_misaligned_at JournalKind.wait "shipped" waiting ≡ true
shipped_refused = refl

-- The event came after the execution had loaded its journal.
abbrev paid_row : JournalEntry
paid_row = record paid_wait { done = true; payload = 3 ∷ [] }

abbrev paid_db : Db
paid_db = record empty_db { journal = paid_row ∷ [] }

wait_for_delivered_example :
    ((wait_for 0 encode_number decode_number "paid" 15 30 paid_db waiting).result
      ≡ decoded 0 encode_number decode_number (3 ∷ []))
    × ((wait_for 0 encode_number decode_number "paid" 15 30 paid_db waiting).db ≡ paid_db)
unfolding take_entry first count
wait_for_delivered_example =
    wait_for_delivered 0 encode_number decode_number "paid" 15 30 paid_db waiting paid_wait paid_row
      refl refl refl refl refl (omega arith) refl refl
