-- ===== src/Queue/Sync.antt =====
-- The code that commit_sync/queue.py, pr_sync/queue.py and deployment_sync/queue.py share, over the
-- constants in which they differ.
pub mod Enqueue
pub mod Acks
pub mod Stops
pub mod DeadLetters
pub mod Consumer
use Prim.Native.Nat.{max}
use Prim.Native.String
use imbi_api.Prelude.{
  Entries, ℕ, zero, suc, ◌+◌, ◌-◌, String, Bool, true, false, Option, none, some, List, [], ◌∷◌,
  leb, ◌==◌, if◌then◌else◌, lookup,
}
use imbi_api.Prelude.Splits.{take_chars}
use imbi_api.Queue.Outside.{
  Fields, Answer, raised, falsy, truthy, Write, written, conflict, Pending, unknown, delivered,
  RunEnd, completed, unavailable, rate_limited, errored, SyncState, queued, running, success,
  failed, Status, Ended, finished, limited, crashed, Event, set_nx, deleted, added, moved, acked,
  asked, paused, wrote, ran, ended, Log, Outside,
}

-- The constants of one queue.
pub record Queue : Type 0 where
  pub stream : String
  pub dlq : String
  pub debounce_prefix : String
  pub debounce_seconds : ℕ
  pub max_deliveries : ℕ
  pub pause_key_buffer : ℕ
  pub failure : String
  -- The limit that a job asks for, where the backfill takes one.
  pub limit : Fields → ℕ

-- _STATUS_WRITE_RETRIES
abbrev pub status_write_retries : ℕ
status_write_retries = 3

-- _MAX_ERROR_LEN
abbrev pub max_error_len : ℕ
max_error_len = 500

-- f'{DEBOUNCE_PREFIX}:{project_id}'
unfoldable pub debounce_key : String → String → String
debounce_key prefix project_id = String.◌++◌ prefix (String.◌++◌ ":" project_id)

-- `value or default` on a text that may be missing.
abbrev pub text_or : Option String → String → String
text_or none d = d
text_or (some t) d = if t == "" then d else t

-- int(retry_at - time.time()) + PAUSE_KEY_BUFFER_SECONDS, at least 1: the difference may be negative,
-- and the sum with the buffer stops at 1. The clock is that of the batch, in whole seconds.
unfoldable pub pause_ttl : Queue → ℕ → ℕ → ℕ
pause_ttl q retry_at now = max 1 (retry_at + q.pause_key_buffer - now)

-- What the dead-letter check makes of a message: it stays, it has been moved, or a command raised.
pub data DeadLetter : Type 0 where
  kept gone broken : DeadLetter

-- What the loop of `_handle_entries` does after a message.
pub data Fate : Type 0 where
  next_one throttled thrown : Fate

-- How a batch ends: all seen, stopped by a rate limit, or left by an exception.
pub data Batch : Type 0 where
  through stopped left : Batch

-- A write that met a conflict is tried again.
abbrev pub after_write : (Log → Log) → Write → Log → Log
after_write again conflict log = again log
after_write again answer log = log

module _ (o : Outside) (q : Queue) where
  unfoldable pub release : String → Log → Log
  release key log = deleted key (o.delete log key) ∷ log

  -- After XADD, and after the debounce SET, by their answers.
  unfoldable pub after_add : String → Fields → Answer → Log → Bool × Log
  unfolding release
  after_add key job raised log = (false, release key (added q.stream job raised ∷ log))
  after_add key job answer log = (true, added q.stream job answer ∷ log)

  unfoldable pub after_set : String → Fields → Answer → Log → Bool × Log
  unfolding release after_add
  after_set key job raised log = (false, release key (set_nx key q.debounce_seconds raised ∷ log))
  after_set key job falsy log = (false, set_nx key q.debounce_seconds falsy ∷ log)
  after_set key job truthy log =
      let log₁ : Log = set_nx key q.debounce_seconds truthy ∷ log in
      after_add key job (o.xadd log₁ q.stream job) log₁

  -- Debounce, then add. Any exception releases the debounce key.
  unfoldable pub enqueue : Bool → String → Fields → Log → Bool × Log
  unfolding after_set
  enqueue false project_id job log = (false, log)
  enqueue true project_id job log =
      let key = debounce_key q.debounce_prefix project_id in
      after_set key job (o.set_nx log key q.debounce_seconds) log

  -- The attempts of `set_status`: only a conflict is tried again.
  unfoldable pub write_status : ℕ → Status → Log → Log
  write_status zero s log = log
  write_status (suc attempts) s log =
      let answer = o.write log s in
      after_write (write_status attempts s) answer (wrote s answer ∷ log)

  abbrev pub set_status : Status → Log → Log
  set_status = write_status status_write_retries

  abbrev pub status_of : String → String → SyncState → Entries ℕ → String → Status
  status_of project_id requested_by state figures error = record {
    project_id = project_id;
    state = state;
    requested_by = requested_by;
    figures = figures;
    error = take_chars max_error_len error;
  }

  -- What follows the backfill: the status of its end, and how the message ends.
  unfoldable pub conclude : String → String → RunEnd → Log → Ended × Log
  conclude project_id by (completed figures) log =
      (finished, set_status (status_of project_id by success figures "") log)
  conclude project_id by (unavailable message) log =
      (finished, set_status (status_of project_id by failed [] message) log)
  conclude project_id by (rate_limited retry_at) log =
      (limited retry_at, set_status (status_of project_id by queued [] "") log)
  conclude project_id by errored log =
      (crashed, set_status (status_of project_id by failed [] q.failure) log)

  -- The processing of a message that names a project.
  unfoldable pub process_project : String → String → String → ℕ → Log → Ended × Log
  process_project project_id by org limit log =
      let log₁ = set_status (status_of project_id by running [] "") log in
      let result = o.run log₁ org project_id limit in
      conclude project_id by result (ran org project_id result ∷ log₁)

  unfoldable pub process_message : Fields → Log → Ended × Log
  process_message fields log =
      let project_id = text_or (lookup "project_id" fields) "" in
      let by = text_or (lookup "requested_by" fields) "system" in
      let org = text_or (lookup "org_slug" fields) "" in
      if project_id == ""
      then (finished, log)
      else process_project project_id by org (q.limit fields) log

  -- XACK of a message that the dead-letter stream has.
  unfoldable pub after_move : String → Answer → Log → DeadLetter × Log
  after_move msg raised log = (broken, acked msg raised ∷ log)
  after_move msg answer log = (gone, acked msg answer ∷ log)

  unfoldable pub move : String → Fields → Answer → Log → DeadLetter × Log
  move msg fields raised log = (broken, moved msg fields raised ∷ log)
  move msg fields answer log =
      let log₁ : Log = moved msg fields answer ∷ log in after_move msg (o.xack log₁ msg) log₁

  unfoldable pub dead_letter : String → Fields → Pending → Log → DeadLetter × Log
  dead_letter msg fields unknown log = (kept, log)
  dead_letter msg fields (delivered n) log =
      if leb q.max_deliveries n then move msg fields (o.xadd log q.dlq fields) log else (kept, log)

  unfoldable pub maybe_dead_letter : String → Fields → Log → DeadLetter × Log
  maybe_dead_letter msg fields log =
      let info = o.xpending log msg in dead_letter msg fields info (asked msg info ∷ log)

  unfoldable pub pause_until : ℕ → ℕ → Log → Log
  pause_until now retry_at log =
      let ttl = pause_ttl q retry_at now in paused retry_at ttl (o.set_pause log retry_at ttl) ∷ log

  -- One message of a batch: what becomes of it, the dead-letter check included.
  unfoldable pub after_processing : ℕ → String → Ended × Log → Fate × Log
  after_processing now msg (limited retry_at, log) =
      (throttled, pause_until now retry_at (ended msg (limited retry_at) ∷ log))
  after_processing now msg (crashed, log) = (next_one, ended msg crashed ∷ log)
  after_processing now msg (finished, log) =
      let log₁ : Log = ended msg finished ∷ log in
      let answer = o.xack log₁ msg in
      let log₂ : Log = acked msg answer ∷ log₁ in
      elim answer [ raised ↦ (thrown, log₂) | _ ↦ (next_one, log₂) ]

  unfoldable pub after_check : ℕ → String → Fields → DeadLetter × Log → Fate × Log
  after_check now msg fields (gone, log) = (next_one, log)
  after_check now msg fields (broken, log) = (thrown, log)
  after_check now msg fields (kept, log) = after_processing now msg (process_message fields log)

  unfoldable pub handle_entry : ℕ → Bool → String → Fields → Log → Fate × Log
  handle_entry now check msg fields log =
      after_check now msg fields (if check then maybe_dead_letter msg fields log else (kept, log))

  -- The loop of `_handle_entries`: a rate limit ends the batch, and so does an exception of XACK or
  -- of the dead-letter commands.
  unfoldable pub after_entry : (Log → Batch × Log) → Fate × Log → Batch × Log
  after_entry rest (next_one, log) = rest log
  after_entry rest (throttled, log) = (stopped, log)
  after_entry rest (thrown, log) = (left, log)

  unfoldable pub handle_entries : ℕ → Bool → List (String × Fields) → Log → Batch × Log
  handle_entries now check [] log = (through, log)
  handle_entries now check ((msg, fields) ∷ rest) log =
      after_entry (handle_entries now check rest) (handle_entry now check msg fields log)
