-- ===== src/Store/JournalExamples.antt =====
-- The theorems on the journal at a concrete database.
use quacker.Prelude.{◌≡◌, refl, true, false, String, [], ◌∷◌, Memᴰ, arith, eq_iff}
use quacker.Store.Model.{Status, JournalKind, JournalEntry, Db}
use quacker.Store.Journal.{is_entry, timeout_wait, deliver_event}
use quacker.Store.Journal.Settled.{settled_once}
use quacker.Store.Samples.{plain_run, plain_step, db_of, both}

abbrev wait_entry : String → JournalEntry
wait_entry id = record {
  step_id = id;
  idx = 0;
  kind = JournalKind.wait;
  key = "";
  event = "paid";
  wake_at = 0;
  deadline = 9;
  payload = [];
  result = [];
  err = "";
  done = false;
  timed_out = false;
}

-- One wait has timed out and the other one is open.
abbrev late : JournalEntry
late = record (wait_entry "a") { done = true; timed_out = true }

abbrev waiting_db : Db
waiting_db =
    record (db_of (plain_run "r" Status.running ∷ []) (
      plain_step "a" "r" "a" Status.suspended []
      ∷ plain_step "b" "r" "b" Status.suspended []
      ∷ [])) { journal = late ∷ wait_entry "b" ∷ [] }

late-alone : (x : JournalEntry) → Memᴰ x waiting_db.journal → is_entry "a" 0 x ≡ true → x ≡ late
late-alone =
    both (λ x. is_entry "a" 0 x ≡ true → x ≡ late) late (wait_entry "b") (λ _. refl)
      (λ bad. absurd (ground (arith, eq_iff "b" "a")))

settled_once_example :
    Memᴰ late (deliver_event "paid" (1 ∷ []) 12 waiting_db).0.journal
    × Memᴰ late (timeout_wait "b" 0 waiting_db).0.journal
    × ((timeout_wait "a" 0 waiting_db).1 ≡ false)
settled_once_example =
    settled_once late waiting_db "paid" (1 ∷ []) 12 "b" 0 refl (Memᴰ.head refl) late-alone
