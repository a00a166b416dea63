-- ===== src/Queue/PrSync.antt =====
-- imbi_api/pr_sync/queue.py: the constants of the queue, and its operations as those of the shared code.
use imbi_api.Prelude.{ℕ, Bool, String, Option, List, [], ◌∷◌}
use imbi_api.Queue.Outside.{Fields, Ended, Log, Outside}
use imbi_api.Queue.Sync.{
  Queue, Batch, DeadLetter, enqueue, process_message, maybe_dead_letter, handle_entries,
  pause_until, text_or,
}
use imbi_api.Queue.Sync.Consumer.{consume}

-- The backfill of this queue takes no limit.
abbrev pub pr_sync : Queue
pr_sync = record {
  stream = "imbi:pr-sync";
  dlq = "imbi:pr-sync:dlq";
  debounce_prefix = "imbi:pr-sync:debounce";
  debounce_seconds = 10;
  max_deliveries = 3;
  pause_key_buffer = 5;
  failure = "PR sync failed. See server logs for details.";
  limit = λ fields. 0;
}

-- The fields of a job.
abbrev pub pr_sync_job : String → String → Option String → Fields
pr_sync_job org_slug project_id requested_by =
    ("org_slug", org_slug)
    ∷ ("project_id", project_id)
    ∷ ("requested_by", text_or requested_by "system")
    ∷ []

module _ (o : Outside) where
  unfoldable pub enqueue_pr_sync : Bool → String → String → Option String → Log → Bool × Log
  enqueue_pr_sync client org_slug project_id requested_by =
      enqueue o pr_sync client project_id (pr_sync_job org_slug project_id requested_by)

  unfoldable pub process_pr_sync : Fields → Log → Ended × Log
  process_pr_sync = process_message o pr_sync

  unfoldable pub dead_letter_pr_sync : String → Fields → Log → DeadLetter × Log
  dead_letter_pr_sync = maybe_dead_letter o pr_sync

  unfoldable pub pause_pr_sync : ℕ → ℕ → Log → Log
  pause_pr_sync = pause_until o pr_sync

  unfoldable pub handle_pr_sync : ℕ → Bool → List (String × Fields) → Log → Batch × Log
  handle_pr_sync = handle_entries o pr_sync

  unfoldable pub consume_pr_sync : ℕ → Log → Log
  consume_pr_sync = consume o pr_sync
