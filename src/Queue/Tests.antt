-- ===== src/Queue/Tests.antt =====
-- The queues on servers whose answers are written down.
use imbi_api.Prelude.{
  ℕ, ◌≡◌, ◌⊎◌, refl, String, true, false, Option, none, some, List, [], ◌∷◌, arith, ◌==◌,
  if◌then◌else◌, lookup,
}
use imbi_api.Prelude.Int.{ℤ, pos}
use imbi_api.Queue.Outside.{
  Fields, raised, falsy, truthy, written, conflict, delivered, unknown, RunEnd, completed,
  rate_limited, Status, success, Outside, asked, looked,
}
use imbi_api.Queue.Sync.{
  enqueue, release, after_set, after_add, debounce_key, write_status, conclude, process_project,
  process_message, maybe_dead_letter, dead_letter, move, after_move, after_check, after_processing,
  pause_until, pause_ttl, handle_entry, handle_entries, after_entry, stopped,
}
use imbi_api.Queue.Sync.Enqueue.{HasReleased, enqueue_refused}
use imbi_api.Queue.Sync.Acks.{IsJustified, IsJustified-handle_entries}
use imbi_api.Queue.Sync.Consumer.{
  round, consume, consume-IsJustified, round_paused, claim_stale, read_new, after_read, after_stale,
}
use imbi_api.Queue.Sync.DeadLetters.{IsPoison, HasMoved, handle_entry_check}
use imbi_api.Queue.CommitSync.{commit_sync, commit_sync_job, process_commit_sync}
use imbi_api.Queue.DeploymentSync.{deployment_sync, parse_limit}

-- Opens the queues.
queues : Unit {0}
unfolding lookup enqueue release after_set after_add debounce_key write_status conclude
    process_project process_message maybe_dead_letter dead_letter move after_move after_check
    after_processing pause_until pause_ttl handle_entry handle_entries after_entry round consume
    claim_stale read_new after_read after_stale process_commit_sync deployment_sync parse_limit
queues = tt

-- One backfill meets a rate limit until 160.
abbrev backfill : String → RunEnd
backfill project_id =
    if project_id == "busy" then rate_limited 160 else completed (("recorded", 4) ∷ [])

abbrev job : String → Fields
job project_id = commit_sync_job "acme" project_id (some "ann")

abbrev batch : List (String × Fields)
batch = ("1-0", job "p1") ∷ ("2-0", job "busy") ∷ ("3-0", job "p3") ∷ []

-- Every command succeeds; the message "9-0" has been delivered five times.
abbrev willing : Option ℕ → Outside
willing pause = record {
  set_nx = λ log key seconds. truthy;
  delete = λ log key. truthy;
  xadd = λ log stream fields. truthy;
  xack = λ log msg. truthy;
  xpending = λ log msg. delivered (if msg == "9-0" then 5 else 1);
  set_pause = λ log retry_at ttl. truthy;
  write = λ log s. written;
  get_pause = λ log. pause;
  claim = λ log. ("9-0", job "p9") ∷ [];
  read = λ log. some batch;
  now = λ log. 100;
  run = λ log org project_id limit. backfill project_id;
}

-- XADD raises, and a status write always meets a conflict.
abbrev unwilling : Outside
unwilling = record {
  set_nx = λ log key seconds. truthy;
  delete = λ log key. truthy;
  xadd = λ log stream fields. raised;
  xack = λ log msg. raised;
  xpending = λ log msg. unknown;
  set_pause = λ log retry_at ttl. raised;
  write = λ log s. conflict;
  get_pause = λ log. none;
  claim = λ log. [];
  read = λ log. none;
  now = λ log. 100;
  run = λ log org project_id limit. backfill project_id;
}

-- The batch stops at the busy project; the third message is not touched.
stops : (handle_entries (willing none) commit_sync 100 false batch []).0 ≡ stopped
unfolding queues
stops = refl

refused : (enqueue unwilling commit_sync true "p1" (job "p1") []).0 ≡ false
unfolding queues
refused = refl

enqueue_refused_example :
    (truthy ≡ falsy)
    ⊎ HasReleased unwilling commit_sync
        (debounce_key commit_sync.debounce_prefix "p1")
        (enqueue unwilling commit_sync true "p1" (job "p1") []).1
enqueue_refused_example = enqueue_refused unwilling commit_sync "p1" (job "p1") [] refused

IsJustified-handle_entries_example :
    IsJustified (handle_entries (willing none) commit_sync 100 false batch []).1
IsJustified-handle_entries_example =
    IsJustified-handle_entries (willing none) commit_sync 100 false batch [] tt

consume-IsJustified_example : IsJustified (consume (willing none) commit_sync 2 [])
consume-IsJustified_example = consume-IsJustified (willing none) commit_sync 2 [] tt

round_paused_example : round (willing (some 160)) commit_sync [] ≡ looked (some 160) ∷ []
round_paused_example = round_paused (willing (some 160)) commit_sync [] 160 refl (omega arith)

handle_entry_check_example :
    (IsPoison (willing none) commit_sync (delivered 5)
      → HasMoved
          (willing none)
          commit_sync
          "9-0"
          (job "p9")
          (asked "9-0" (delivered 5) ∷ [])
          (handle_entry (willing none) commit_sync 100 true "9-0" (job "p9") []))
    × (¬ IsPoison (willing none) commit_sync (delivered 5)
        → handle_entry (willing none) commit_sync 100 true "9-0" (job "p9") []
          ≡ handle_entry
              (willing none)
              commit_sync
              100
              false
              "9-0"
              (job "p9")
              (asked "9-0" (delivered 5) ∷ []))
handle_entry_check_example = handle_entry_check (willing none) commit_sync 100 "9-0" (job "p9") []

abbrev running_status : Status
running_status = record {
  project_id = "p1";
  state = success;
  requested_by = "ann";
  figures = [];
  error = "";
}

abbrev read_int : String → Option ℤ
read_int t = if t == "250" then some (pos 250) else none

abbrev show : ℕ → String
show n = "250"
