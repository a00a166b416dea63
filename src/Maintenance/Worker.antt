-- ===== src/Maintenance/Worker.antt =====
-- imbi_api/maintenance/worker.py: one tick of a worker for one operation. What the operation does to
-- the project is an argument, `execute`; whether the outcome could be written is `written` (a
-- refused pipeline is taken to have written nothing).
pub mod Progress
pub mod Completion
use imbi_api.Prelude.{ℕ, ◌+◌, String, Bool, true, false, Option, none, some, ◌&&◌, if◌then◌else◌}
use imbi_api.Valkey.{Valkey}
use imbi_api.Maintenance.Status.{Outcome, succeeded, failed, skipped}
use imbi_api.Maintenance.State.{
  Keys, has_active_run, checkout, maybe_finalize, requeue, record_outcome,
}

-- How `operation.execute` ends.
pub data Execution : Type 0 where
  returned : Outcome → Execution
  shutdown : Execution
  rate_limited : ℕ → Execution
  item_failed : String → Execution
  crashed : Execution

-- What the caller of a tick sees: CancelledError, or the returned flag.
pub data Ending : Type 0 where
  raised : Ending
  worked : Bool → Ending

-- The keys after a tick, the resume time that it wrote under the pause key, and its ending.
pub record Tick (V : Valkey) : Type 0 where
  pub keys : Keys V
  pub pause : Option ℕ
  pub ending : Ending

-- What the handlers of `_tick_operation` make of an execution that is neither a shutdown nor a
-- rate limit: the outcome and the error text.
abbrev pub outcome_of : Execution → Outcome × String
outcome_of (returned o) = (o, "")
outcome_of (item_failed message) = (failed, message)
outcome_of _ = (failed, "Operation failed. See server logs for details.")

module _ (V : Valkey) where
  -- The end of a tick: the outcome is recorded, or the project is handed back.
  unfoldable pub settle : String → Outcome × String → Bool → String → Keys V → Keys V
  settle project_id (outcome, error) written now k =
      (maybe_finalize V now
        (if written then record_outcome V project_id outcome error k else requeue V project_id k)).0

  unfoldable pub run_item : Bool → String → Execution → Bool → String → Keys V → Tick V
  unfolding settle
  run_item pausable project_id shutdown written now k = record {
    keys = requeue V project_id k;
    pause = none;
    ending = raised;
  }
  run_item pausable project_id (rate_limited retry_at) written now k = record {
    keys = requeue V project_id k;
    pause = if pausable then some retry_at else none;
    ending = worked false;
  }
  run_item pausable project_id (returned o) written now k = record {
    keys = settle project_id (outcome_of (returned o)) written now k;
    pause = none;
    ending = worked true;
  }
  run_item pausable project_id (item_failed m) written now k = record {
    keys = settle project_id (outcome_of (item_failed m)) written now k;
    pause = none;
    ending = worked true;
  }
  run_item pausable project_id crashed written now k = record {
    keys = settle project_id (outcome_of crashed) written now k;
    pause = none;
    ending = worked true;
  }

  abbrev idle_tick : Keys V → Tick V
  idle_tick k = record { keys = k; pause = none; ending = worked false }

  -- A tick after `checkout`.
  unfoldable pub after_checkout :
      Bool → (String → Execution) → Bool → String → Keys V × Option String → Tick V
  unfolding run_item
  after_checkout pausable execute written now (k, none) = idle_tick (maybe_finalize V now k).0
  after_checkout pausable execute written now (k, some x) =
      run_item pausable x (execute x) written now k

  -- `pausable`: the operation has a pause key. `paused`: its resume time is not reached.
  unfoldable pub tick_operation :
      Bool → Bool → (String → Execution) → Bool → String → Keys V → Tick V
  unfolding after_checkout
  tick_operation pausable paused execute written now k =
      if has_active_run V k
      then (if pausable && paused
          then idle_tick (maybe_finalize V now k).0
          else after_checkout pausable execute written now (checkout V k))
      else idle_tick k
