-- ===== src/Queue/CommitSync.antt =====
-- imbi_api/commit_sync/queue.py: the constants of the queue, and its operations as those of the shared code.
use imbi_api.Prelude.{ℕ, Bool, String, Option, List, [], ◌∷◌}
use imbi_api.Queue.Outside.{Fields, Ended, Log, Outside}
use imbi_api.Queue.Sync.{
  Queue, Batch, DeadLetter, enqueue, process_message, maybe_dead_letter, handle_entries,
  pause_until, text_or,
}
use imbi_api.Queue.Sync.Consumer.{consume}

-- The backfill of this queue takes no limit.
abbrev pub commit_sync : Queue
commit_sync = record {
  stream = "imbi:commit-sync";
  dlq = "imbi:commit-sync:dlq";
  debounce_prefix = "imbi:commit-sync:debounce";
  debounce_seconds = 10;
  max_deliveries = 3;
  pause_key_buffer = 5;
  failure = "Commit sync failed. See server logs for details.";
  limit = λ fields. 0;
}

-- The fields of a job.
abbrev pub commit_sync_job : String → String → Option String → Fields
commit_sync_job org_slug project_id requested_by =
    ("org_slug", org_slug)
    ∷ ("project_id", project_id)
    ∷ ("requested_by", text_or requested_by "system")
    ∷ []

module _ (o : Outside) where
  unfoldable pub enqueue_commit_sync : Bool → String → String → Option String → Log → Bool × Log
  enqueue_commit_sync client org_slug project_id requested_by =
      enqueue o commit_sync client project_id (commit_sync_job org_slug project_id requested_by)

  unfoldable pub process_commit_sync : Fields → Log → Ended × Log
  process_commit_sync = process_message o commit_sync

  unfoldable pub dead_letter_commit_sync : String → Fields → Log → DeadLetter × Log
  dead_letter_commit_sync = maybe_dead_letter o commit_sync

  unfoldable pub pause_commit_sync : ℕ → ℕ → Log → Log
  pause_commit_sync = pause_until o commit_sync

  unfoldable pub handle_commit_sync : ℕ → Bool → List (String × Fields) → Log → Batch × Log
  handle_commit_sync = handle_entries o commit_sync

  unfoldable pub consume_commit_sync : ℕ → Log → Log
  consume_commit_sync = consume o commit_sync
