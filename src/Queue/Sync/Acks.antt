-- ===== src/Queue/Sync/Acks.antt =====
-- Acknowledgements in `_handle_entries`: each comes after its message was settled.
use imbi_api.Prelude.{
  ℕ, zero, suc, ◌≡◌, inl, inr, String, Bool, true, false, ◌||◌, List, [], ◌∷◌, arith, ◌==◌, eq_refl,
  Bool-cases, lookup,
}
use imbi_api.Queue.Outside.{
  Fields, falsy, truthy, Write, written, conflict, failed, RunEnd, Status, Ended, completed,
  unavailable, rate_limited, errored, finished, limited, crashed, moved, acked, wrote, ran, ended,
  Log, Outside,
}
use imbi_api.Queue.Sync.{
  Queue, after_write, write_status, conclude, process_message, process_project, text_or,
  maybe_dead_letter, pause_until, DeadLetter, kept, gone, broken, Fate, next_one, throttled, thrown,
  Batch, after_processing, after_check, handle_entry, handle_entries, after_entry, move, after_move,
  dead_letter,
}

-- The message was processed to its end, or stands on the dead-letter stream.
abbrev pub settled : String → Log → Bool
settled msg [] = false
settled msg (ended m finished ∷ log) = m == msg || settled msg log
settled msg (moved m job falsy ∷ log) = m == msg || settled msg log
settled msg (moved m job truthy ∷ log) = m == msg || settled msg log
settled msg (_ ∷ log) = settled msg log

-- Every acknowledgement comes after its message was settled.
abbrev pub IsJustified : Log → Type 0
IsJustified [] = Unit
IsJustified (acked msg answer ∷ log) = (settled msg log ≡ true) × IsJustified log
IsJustified (_ ∷ log) = IsJustified log

module _ (o : Outside) (q : Queue) where
  -- What holds of a log and is kept by status writes and backfills is kept by a message's
  -- processing.
  module _ (P : Log → Type 0)
      (writes : (s : Status) (w : Write) (log : Log) → P log → P (wrote s w ∷ log))
      (runs : (org project_id : String) (r : RunEnd) (log : Log)
        → P log
        → P (ran org project_id r ∷ log)) where
    after_write_keeps :
        (again : Log → Log) (w : Write) (log : Log)
        → ((l : Log) → P l → P (again l))
        → P log
        → P (after_write again w log)
    after_write_keeps again conflict log k h = k log h
    after_write_keeps again written log k h = h
    after_write_keeps again failed log k h = h

    write_status_keeps :
        (attempts : ℕ) (s : Status) (log : Log) → P log → P (write_status o q attempts s log)
    unfolding write_status
    write_status_keeps zero s log h = h
    write_status_keeps (suc n) s log h =
        after_write_keeps (write_status o q n s) (o.write log s) (wrote s (o.write log s) ∷ log)
          (write_status_keeps n s) (writes s (o.write log s) log h)

    conclude_keeps :
        (project_id by : String) (r : RunEnd) (log : Log)
        → P log
        → P (conclude o q project_id by r log).1
    unfolding conclude
    conclude_keeps project_id by (completed figures) log h = write_status_keeps 3 _ log h
    conclude_keeps project_id by (unavailable message) log h = write_status_keeps 3 _ log h
    conclude_keeps project_id by (rate_limited t) log h = write_status_keeps 3 _ log h
    conclude_keeps project_id by errored log h = write_status_keeps 3 _ log h

    process_project_keeps :
        (project_id by org : String) (limit : ℕ) (log : Log)
        → P log
        → P (process_project o q project_id by org limit log).1
    unfolding process_project
    process_project_keeps project_id by org limit log h =
        conclude_keeps project_id by _ _ (runs org project_id _ _ (write_status_keeps 3 _ log h))

    process_message_keeps :
        (fields : Fields) (log : Log) → P log → P (process_message o q fields log).1
    unfolding process_message
    process_message_keeps fields log h =
        elim (Bool-cases (text_or (lookup "project_id" fields) "" == "")) [
          | inl empty ↦ rw empty h
          | inr named ↦ rw named (process_project_keeps _ _ _ _ log h)
        ]

  -- Two facts about a log that the loop adds to.
  IsJustified-process_message :
      (fields : Fields) (log : Log)
      → IsJustified log
      → IsJustified (process_message o q fields log).1
  IsJustified-process_message fields log h =
      process_message_keeps IsJustified (λ s w l p. p) (λ org id r l p. p) fields log h

  settled-process_message :
      (msg : String) (fields : Fields) (log : Log)
      → settled msg log ≡ true
      → settled msg (process_message o q fields log).1 ≡ true
  settled-process_message msg fields log h =
      process_message_keeps (λ l. settled msg l ≡ true) (λ s w l p. p) (λ org id r l p. p) fields
        log h

  IsJustified-maybe_dead_letter :
      (msg : String) (fields : Fields) (log : Log)
      → IsJustified log
      → IsJustified (maybe_dead_letter o q msg fields log).1
  unfolding maybe_dead_letter dead_letter move after_move
  IsJustified-maybe_dead_letter msg fields log h = ground (arith, eq_refl msg)

  IsJustified-after_processing :
      (now : ℕ) (msg : String) (r : Ended × Log)
      → IsJustified r.1
      → IsJustified (after_processing o q now msg r).1
  unfolding after_processing pause_until
  IsJustified-after_processing now msg (limited t, log) h = h
  IsJustified-after_processing now msg (crashed, log) h = h
  IsJustified-after_processing now msg (finished, log) h = ground (arith, eq_refl msg)

  IsJustified-after_check :
      (now : ℕ) (msg : String) (fields : Fields) (r : DeadLetter × Log)
      → IsJustified r.1
      → IsJustified (after_check o q now msg fields r).1
  unfolding after_check
  IsJustified-after_check now msg fields (gone, log) h = h
  IsJustified-after_check now msg fields (broken, log) h = h
  IsJustified-after_check now msg fields (kept, log) h =
      IsJustified-after_processing now msg (process_message o q fields log)
        (IsJustified-process_message fields log h)

  IsJustified-handle_entry :
      (now : ℕ) (check : Bool) (msg : String) (fields : Fields) (log : Log)
      → IsJustified log
      → IsJustified (handle_entry o q now check msg fields log).1
  unfolding handle_entry
  IsJustified-handle_entry now true msg fields log h =
      IsJustified-after_check now msg fields (maybe_dead_letter o q msg fields log)
        (IsJustified-maybe_dead_letter msg fields log h)
  IsJustified-handle_entry now false msg fields log h =
      IsJustified-after_check now msg fields (kept, log) h

  IsJustified-after_entry :
      (rest : Log → Batch × Log) (r : Fate × Log)
      → ((log : Log) → IsJustified log → IsJustified (rest log).1)
      → IsJustified r.1
      → IsJustified (after_entry o q rest r).1
  unfolding after_entry
  IsJustified-after_entry rest (next_one, log) k h = k log h
  IsJustified-after_entry rest (throttled, log) k h = h
  IsJustified-after_entry rest (thrown, log) k h = h

  -- Handling a batch keeps every acknowledgement justified: whatever the answers, no message is
  -- acknowledged before it was processed to its end or stored on the dead-letter stream.
  pub IsJustified-handle_entries :
      (now : ℕ) (check : Bool) (batch : List (String × Fields)) (log : Log)
      → IsJustified log
      → IsJustified (handle_entries o q now check batch log).1
  unfolding handle_entries
  IsJustified-handle_entries now check [] log h = h
  IsJustified-handle_entries now check ((msg, fields) ∷ rest) log h =
      IsJustified-after_entry (handle_entries o q now check rest) _
        (IsJustified-handle_entries now check rest)
        (IsJustified-handle_entry now check msg fields log h)
