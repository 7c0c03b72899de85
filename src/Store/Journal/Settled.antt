-- ===== src/Store/Journal/Settled.antt =====
-- TimeoutWait and DeliverEvent on a wait that is already settled.
use quacker.Prelude.{ℕ, ◌≡◌, refl, String, true, false, inl, inr, List, [], ◌∷◌, Memᴰ, arith, ◌==◌}
use quacker.Table.{update, count}
use quacker.Table.Laws.{mem-update_intro, count_cases}
use quacker.Store.Model.{Bytes, JournalEntry, Db}
use quacker.Store.Journal.{timeout_wait, deliver_event, deliver_each, is_undone, is_entry}

-- A guarded update leaves a done entry as it is.
done-mem-update :
    (step_id : String) (idx : ℕ) (f : JournalEntry → JournalEntry) (e : JournalEntry)
    (journal : List JournalEntry)
    → e.done ≡ true
    → Memᴰ e journal
    → Memᴰ e (update (is_undone step_id idx) f journal)
done-mem-update step_id idx f e journal done m =
    let miss : is_undone step_id idx e ≡ false = ground arith in
    rw miss at (mem-update_intro (is_undone step_id idx) f e journal m)

done-mem-deliver_each :
    (payload : Bytes) (ws journal : List JournalEntry) (e : JournalEntry)
    → e.done ≡ true
    → Memᴰ e journal
    → Memᴰ e (deliver_each payload ws journal).0
unfolding deliver_each
done-mem-deliver_each payload [] journal e done m = m
done-mem-deliver_each payload (w ∷ ws) journal e done m =
    done-mem-deliver_each payload ws _ e done (done-mem-update w.step_id w.idx _ e journal done m)

undone_single :
    (step_id : String) (idx : ℕ) (journal : List JournalEntry) (e : JournalEntry)
    → e.done ≡ true
    → ((x : JournalEntry) → Memᴰ x journal → is_entry step_id idx x ≡ true → x ≡ e)
    → (count (is_undone step_id idx) journal == 1) ≡ false
undone_single step_id idx journal e done unique =
    elim (count_cases (is_undone step_id idx) journal) [
      | inl z ↦ rw z refl
      | inr (x, m, h) ↦
          let same : x ≡ e = unique x m (ground arith) in
          let xdone : x.done ≡ true = rw same done in absurd (ground arith)
    ]

-- A settled wait stays settled as it was: an entry that is done, by its timeout or by a delivery, and
-- is the only one under its step and index, is in the journal unchanged after the delivery of any event
-- and after any timeout, and its own timeout reports that it did not win.
pub settled_once :
    (e : JournalEntry) (db : Db) (name : String) (payload : Bytes) (now : ℕ) (step_id : String)
    (idx : ℕ)
    → e.done ≡ true
    → Memᴰ e db.journal
    → ((x : JournalEntry) → Memᴰ x db.journal → is_entry e.step_id e.idx x ≡ true → x ≡ e)
    → Memᴰ e (deliver_event name payload now db).0.journal
      × Memᴰ e (timeout_wait step_id idx db).0.journal
      × ((timeout_wait e.step_id e.idx db).1 ≡ false)
unfolding deliver_event timeout_wait
settled_once e db name payload now step_id idx done m unique = (
  done-mem-deliver_each payload _ db.journal e done m,
  done-mem-update step_id idx _ e db.journal done m,
  undone_single e.step_id e.idx db.journal e done unique,
)
