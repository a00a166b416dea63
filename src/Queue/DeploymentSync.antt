-- ===== src/Queue/DeploymentSync.antt =====
-- imbi_api/deployment_sync/queue.py: the constants of the queue, and its operations as those of the
-- shared code. Python's `int` and `str` of numbers are arguments. The renewal of a claim while a job
-- runs resets an idle clock on the server and adds nothing to the log.
use Prim.Native.Nat.{min, max}
use imbi_api.Prelude.{
  ℕ, Bool, String, Option, none, some, List, [], ◌∷◌, ◌==◌, if◌then◌else◌, lookup,
}
use imbi_api.Prelude.Int.{ℤ, pos_part}
use imbi_api.Queue.Outside.{Fields, Ended, Log, Outside}
use imbi_api.Queue.Sync.{
  Queue, Batch, DeadLetter, enqueue, process_message, maybe_dead_letter, handle_entries,
  pause_until, text_or,
}
use imbi_api.Queue.Sync.Consumer.{consume}

abbrev pub max_limit : ℕ
max_limit = 100

-- max(1, min(limit, MAX_LIMIT))
abbrev clamp : ℤ → ℕ
clamp limit = max 1 (min (pos_part limit) max_limit)

module _ (int : String → Option ℤ) where
  abbrev parsed : Option ℤ → ℕ
  parsed none = 1
  parsed (some limit) = clamp limit

  unfoldable pub parse_limit : Option String → ℕ
  parse_limit none = clamp (ℤ.pos 1)
  parse_limit (some raw) = if raw == "" then clamp (ℤ.pos 1) else parsed (int raw)

  unfoldable pub deployment_sync : Queue
  deployment_sync = record {
    stream = "imbi:deployment-sync";
    dlq = "imbi:deployment-sync:dlq";
    debounce_prefix = "imbi:deployment-sync:debounce";
    debounce_seconds = 10;
    max_deliveries = 3;
    pause_key_buffer = 5;
    failure = "Deployment resync failed. See server logs for details.";
    limit = λ fields. parse_limit (lookup "limit" fields);
  }

abbrev pub deployment_sync_job : (ℕ → String) → String → String → Option String → ℕ → Fields
deployment_sync_job str org_slug project_id requested_by limit =
    ("org_slug", org_slug)
    ∷ ("project_id", project_id)
    ∷ ("requested_by", text_or requested_by "system")
    ∷ ("limit", str limit)
    ∷ []

module _ (o : Outside) (int : String → Option ℤ) (str : ℕ → String) where
  unfoldable pub enqueue_deployment_sync :
      Bool → String → String → Option String → ℕ → Log → Bool × Log
  enqueue_deployment_sync client org_slug project_id requested_by limit =
      enqueue o (deployment_sync int) client project_id
        (deployment_sync_job str org_slug project_id requested_by limit)

  unfoldable pub process_deployment_sync : Fields → Log → Ended × Log
  process_deployment_sync = process_message o (deployment_sync int)

  unfoldable pub dead_letter_deployment_sync : String → Fields → Log → DeadLetter × Log
  dead_letter_deployment_sync = maybe_dead_letter o (deployment_sync int)

  unfoldable pub pause_deployment_sync : ℕ → ℕ → Log → Log
  pause_deployment_sync = pause_until o (deployment_sync int)

  unfoldable pub handle_deployment_sync : ℕ → Bool → List (String × Fields) → Log → Batch × Log
  handle_deployment_sync = handle_entries o (deployment_sync int)

  unfoldable pub consume_deployment_sync : ℕ → Log → Log
  consume_deployment_sync = consume o (deployment_sync int)
