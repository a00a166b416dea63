-- ===== src/Queue/Sync/Stops.antt =====
-- How a batch of `_handle_entries` ends.
use imbi_api.Prelude.{ℕ, ◌+◌, ◌≤◌, ◌≡◌, refl, String, Bool, List, [], ◌∷◌, ◌++◌, arith}
use imbi_api.Queue.Outside.{
  Fields, Answer, Ended, finished, limited, crashed, paused, ended, Log, Outside,
}
use imbi_api.Queue.Sync.{
  Queue, pause_until, pause_ttl, DeadLetter, kept, gone, broken, Fate, next_one, throttled, thrown,
  Batch, through, stopped, left, after_processing, after_check, handle_entry, handle_entries,
  after_entry,
}

module _ (o : Outside) (q : Queue) where
  -- What a batch followed by another makes: a batch that is not through leaves the other unread.
  abbrev pub then_batch : (Log → Batch × Log) → Batch × Log → Batch × Log
  then_batch rest (through, log) = rest log
  then_batch rest (stopped, log) = (stopped, log)
  then_batch rest (left, log) = (left, log)

  after_entry-then :
      (rest more : Log → Batch × Log) (all : Log → Batch × Log) (r : Fate × Log)
      → ((log : Log) → all log ≡ then_batch more (rest log))
      → after_entry o q all r ≡ then_batch more (after_entry o q rest r)
  unfolding after_entry
  after_entry-then rest more all (next_one, log) k = k log
  after_entry-then rest more all (throttled, log) k = refl
  after_entry-then rest more all (thrown, log) k = refl

  -- A batch that ends in two parts: the second part is handled after the first if the first went
  -- through, and else not touched.
  pub handle_entries-append :
      (now : ℕ) (check : Bool) (xs ys : List (String × Fields)) (log : Log)
      → handle_entries o q now check (xs ++ ys) log
        ≡ then_batch (handle_entries o q now check ys) (handle_entries o q now check xs log)
  unfolding handle_entries
  handle_entries-append now check [] ys log = refl
  handle_entries-append now check ((msg, fields) ∷ rest) ys log =
      after_entry-then (handle_entries o q now check rest) (handle_entries o q now check ys)
        (handle_entries o q now check (rest ++ ys)) _ (handle_entries-append now check rest ys)

  -- The newest event is the pause of a rate limit that the message before it met, and the marker
  -- outlives the time that it carries.
  abbrev pub HasPaused : ℕ → Log → Type 0
  HasPaused now log =
      (retry_at : ℕ) × (ttl : ℕ) × (answer : Answer) × (msg : String) × (earlier : Log) × (log
        ≡ paused retry_at ttl answer ∷ ended msg (limited retry_at) ∷ earlier)
      × (retry_at ≤ now + ttl)

  after_processing_throttled :
      (now : ℕ) (msg : String) (r : Ended × Log)
      → (after_processing o q now msg r).0 ≡ throttled
      → HasPaused now (after_processing o q now msg r).1
  unfolding after_processing pause_until pause_ttl
  after_processing_throttled now msg (limited t, log) e = (t, _, _, msg, log, refl, omega arith)
  after_processing_throttled now msg (crashed, log) e = cc
  after_processing_throttled now msg (finished, log) e = absurd (ground arith)

  after_check_throttled :
      (now : ℕ) (msg : String) (fields : Fields) (r : DeadLetter × Log)
      → (after_check o q now msg fields r).0 ≡ throttled
      → HasPaused now (after_check o q now msg fields r).1
  unfolding after_check
  after_check_throttled now msg fields (gone, log) e = cc
  after_check_throttled now msg fields (broken, log) e = cc
  after_check_throttled now msg fields (kept, log) e = after_processing_throttled now msg _ e

  after_entry_stopped :
      (now : ℕ) (rest : Log → Batch × Log) (r : Fate × Log)
      → ((log : Log) → (rest log).0 ≡ stopped → HasPaused now (rest log).1)
      → (r.0 ≡ throttled → HasPaused now r.1)
      → (after_entry o q rest r).0 ≡ stopped
      → HasPaused now (after_entry o q rest r).1
  unfolding after_entry
  after_entry_stopped now rest (next_one, log) k t e = k log e
  after_entry_stopped now rest (throttled, log) k t e = t refl
  after_entry_stopped now rest (thrown, log) k t e = cc

  -- A batch stops only at a rate limit: its last command set the pause marker to the limit's resume
  -- time, directly after the message that met the limit, with a time to live that reaches it.
  pub handle_entries_stopped :
      (now : ℕ) (check : Bool) (batch : List (String × Fields)) (log : Log)
      → (handle_entries o q now check batch log).0 ≡ stopped
      → HasPaused now (handle_entries o q now check batch log).1
  unfolding handle_entries handle_entry
  handle_entries_stopped now check [] log e = cc
  handle_entries_stopped now check ((msg, fields) ∷ rest) log e =
      after_entry_stopped now (handle_entries o q now check rest) _
        (handle_entries_stopped now check rest) (after_check_throttled now msg fields _) e
