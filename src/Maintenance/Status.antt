-- ===== src/Maintenance/Status.antt =====
-- imbi_api/maintenance/state.py: the states, outcomes and status of a run, and how a field of its
-- hash is read.
use imbi_api.Prelude.{ℕ, String, Bool, true, false, Option, none, some, ◌==◌}
use imbi_api.Prelude.Int.{ℤ, pos}
use imbi_api.Valkey.{Value, text, int}

pub data RunState : Type 0 where
  idle running completed cancelled abandoned : RunState

pub data Outcome : Type 0 where
  succeeded failed skipped : Outcome

-- The field of the run hash that counts an outcome.
abbrev pub outcome_field : Outcome → String
outcome_field succeeded = "succeeded"
outcome_field failed = "failed"
outcome_field skipped = "skipped"

pub record RunStatus : Type 0 where
  pub state : RunState
  pub run_id : Option String
  pub total : ℤ
  pub remaining : ℕ
  pub in_flight : ℤ
  pub succeeded : ℤ
  pub failed : ℤ
  pub skipped : ℤ
  pub started_at : Option String
  pub started_by : Option String
  pub completed_at : Option String

abbrev pub no_run : RunStatus
no_run = record {
  state = idle;
  run_id = none;
  total = pos 0;
  remaining = 0;
  in_flight = pos 0;
  succeeded = pos 0;
  failed = pos 0;
  skipped = pos 0;
  started_at = none;
  started_by = none;
  completed_at = none;
}

-- `_opt_int`: a missing field, and a text that is no number, read as 0.
abbrev pub opt_int : Option Value → ℤ
opt_int none = pos 0
opt_int (some (int n)) = n
opt_int (some (text t)) = pos 0

-- `_decode` of a field that may be missing.
abbrev pub opt_text : Option Value → Option String
opt_text (some (text t)) = some t
opt_text _ = none

-- `run_state is None or _decode(run_state) != 'running'` is the negation.
abbrev pub is_running : Option Value → Bool
is_running (some (text t)) = t == "running"
is_running _ = false

abbrev pub is_held : Option String → Bool
is_held none = false
is_held (some id) = true

abbrev pub is_failed : Outcome → Bool
is_failed failed = true
is_failed _ = false
