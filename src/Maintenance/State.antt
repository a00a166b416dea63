-- ===== src/Maintenance/State.antt =====
-- imbi_api/maintenance/state.py: the run state of one operation slug. The four keys of the slug are
-- the fields of `Keys`, and a function is one whole call, with no command of another call between its
-- own; Maintenance.Commands has the commands one by one. The lapse of a
-- time to live is not a command: it is `lapse` below, a step of the environment.
pub mod Seed
pub mod Books
use imbi_api.Prelude.{
  ℕ, zero, suc, String, Bool, true, false, Option, none, some, List, [], ◌∷◌, ltb, ◌==◌, ◌&&◌, not,
  if◌then◌else◌, length, take, drop,
}
use imbi_api.Prelude.Splits.{take_chars}
use imbi_api.Prelude.Int.{ℤ, pos, negsuc, is_pos}
use imbi_api.Valkey.{Valkey, Value, text, int}
use imbi_api.Maintenance.Status.{
  RunState, Outcome, outcome_field, RunStatus, no_run, opt_int, opt_text, is_running, is_held,
  is_failed, idle, running, completed, cancelled, abandoned, succeeded, failed, skipped,
}

abbrev pub sadd_chunk : ℕ
sadd_chunk = 1000

abbrev pub max_failure_details : ℕ
max_failure_details = 500

abbrev pub max_error_len : ℕ
max_error_len = 500

module _ (V : Valkey) where
  open V use {IdSet, no_members, sadd, spop, scard, Hash, no_fields, hset, hincrby, hget, hlen}

  -- What the keys `lock`, `pending`, `run` and `failures` of the slug hold.
  pub record Keys : Type 0 where
    pub lock : Option String
    pub pending : IdSet
    pub run : Hash
    pub failures : Hash

  -- SADD with several members adds each.
  unfoldable pub sadd_all : List String → IdSet → IdSet
  sadd_all [] s = s
  sadd_all (x ∷ xs) s = sadd_all xs (sadd x s)

  -- The loop over `range(0, len(ids), SADD_CHUNK)`; `length ids` rounds are enough.
  unfoldable pub seed : ℕ → List String → IdSet → IdSet
  seed zero ids s = s
  seed (suc rounds) [] s = s
  seed (suc rounds) (x ∷ xs) s =
      seed rounds (drop sadd_chunk (x ∷ xs)) (sadd_all (take sadd_chunk (x ∷ xs)) s)

  -- The mapping that `start_run` writes to the run hash.
  unfoldable pub run_fields : String → ℕ → String → String → Hash
  run_fields run_id total started_at started_by = hset "skipped" (int (pos 0)) (
      hset "failed" (int (pos 0)) (
        hset "succeeded" (int (pos 0)) (
          hset "in_flight" (int (pos 0)) (
            hset "state" (text "running") (
              hset "started_by" (text started_by) (
                hset "started_at" (text started_at)
                  (hset "total" (int (pos total)) (hset "run_id" (text run_id) no_fields))))))))

  unfoldable pub has_active_run : Keys → Bool
  has_active_run k = is_held k.lock

  -- The pipeline of `_finish`.
  unfoldable pub finish : String → String → Keys → Keys
  finish state now k = record k {
    run = hset "completed_at" (text now) (hset "state" (text state) k.run);
    lock = none;
  }

  unfoldable pub maybe_finalize : String → Keys → Keys × Bool
  unfolding finish
  maybe_finalize now k =
      if ltb 0 (scard k.pending)
      then (k, false)
      else if is_pos (opt_int (hget "in_flight" k.run))
      then (k, false)
      else if is_running (hget "state" k.run)
      then (finish "completed" now k, true)
      else (k, false)

  unfoldable pub checkout : Keys → Keys × Option String
  checkout k = elim (spop k.pending) [
    | none ↦ (k, none)
    | some (project_id, rest) ↦
        (record k { pending = rest; run = hincrby "in_flight" (pos 1) k.run }, some project_id)
  ]

  unfoldable pub record_outcome : String → Outcome → String → Keys → Keys
  record_outcome project_id outcome error k =
      let detail =
        is_failed outcome && not (error == "") && ltb (hlen k.failures) max_failure_details in
      record k {
        run = hincrby (outcome_field outcome) (pos 1) (hincrby "in_flight" (negsuc 0) k.run);
        failures =
            if detail
            then hset project_id (text (take_chars max_error_len error)) k.failures
            else k.failures;
      }

  unfoldable pub requeue : String → Keys → Keys
  requeue project_id k = record k {
    pending = sadd project_id k.pending;
    run = hincrby "in_flight" (negsuc 0) k.run;
  }

  unfoldable pub cancel_run : String → Keys → Keys × Bool
  unfolding has_active_run finish
  cancel_run now k =
      if has_active_run k
      then (if is_running (hget "state" k.run)
          then (finish "cancelled" now (record k { pending = no_members }), true)
          else (k, false))
      else (k, false)

  abbrev pub stored_state : Option String → RunState
  stored_state none = idle
  stored_state (some t) =
      if t == "running"
      then running
      else if t == "completed"
      then completed
      else if t == "cancelled"
      then cancelled
      else idle

  -- A stored `running` with no lock reads as `abandoned`.
  abbrev pub read_state : RunState → Bool → RunState
  read_state running locked = if locked then running else abandoned
  read_state other locked = other

  -- The status that a run hash with fields gives.
  unfoldable pub read_hash : Keys → RunStatus
  read_hash k = record {
    state = read_state (stored_state (opt_text (hget "state" k.run))) (is_held k.lock);
    run_id = opt_text (hget "run_id" k.run);
    total = opt_int (hget "total" k.run);
    remaining = scard k.pending;
    in_flight = opt_int (hget "in_flight" k.run);
    succeeded = opt_int (hget "succeeded" k.run);
    failed = opt_int (hget "failed" k.run);
    skipped = opt_int (hget "skipped" k.run);
    started_at = opt_text (hget "started_at" k.run);
    started_by = opt_text (hget "started_by" k.run);
    completed_at = opt_text (hget "completed_at" k.run);
  }

  unfoldable pub read_status : Keys → RunStatus
  read_status k = if ltb 0 (hlen k.run) then read_hash k else no_run

  -- The keys after the lock is acquired and the pipeline has run.
  unfoldable pub seeded : String → List String → String → String → Keys
  unfolding seed sadd_all run_fields
  seeded run_id ids now started_by = record {
    lock = some run_id;
    pending = seed (length ids) ids no_members;
    run = run_fields run_id (length ids) now started_by;
    failures = no_fields;
  }

  -- `start_run` once the lock is held; `later` is the clock when an empty run is finished.
  unfoldable pub begin : String → List String → String → String → String → Keys × Option RunStatus
  unfolding seeded maybe_finalize read_status
  begin run_id [] started_by now later =
      let done = (maybe_finalize later (seeded run_id [] now started_by)).0 in
      (done, some (read_status done))
  begin run_id (x ∷ xs) started_by now later = (
    seeded run_id (x ∷ xs) now started_by,
    some (record no_run {
      state = running;
      run_id = some run_id;
      total = pos (length (x ∷ xs));
      remaining = length (x ∷ xs);
      started_at = some now;
      started_by = some started_by;
    }),
  )

  -- SET NX on the lock, by what it held.
  unfoldable pub start_from :
      Option String
      → String
      → List String
      → String
      → String
      → String
      → Keys
      → Keys × Option RunStatus
  unfolding begin
  start_from (some holder) run_id ids started_by now later k = (k, none)
  start_from none run_id ids started_by now later k = begin run_id ids started_by now later

  -- `uuid4().hex` and the clock are arguments; `none` is "a run is already in progress".
  unfoldable pub start_run :
      String → List String → String → String → String → Keys → Keys × Option RunStatus
  unfolding start_from
  start_run run_id ids started_by now later k = start_from k.lock run_id ids started_by now later k

  -- The lock's time to live lapses.
  unfoldable pub lapse : Keys → Keys
  lapse k = record k { lock = none }
