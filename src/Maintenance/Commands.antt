-- ===== src/Maintenance/Commands.antt =====
-- A run shared by the workers of all API instances, a command at a time: the calls of
-- imbi_api/maintenance/state.py send several commands, and those of other workers come between them.
pub mod Apart
pub mod Tally
pub mod Agrees
pub mod Agreement
pub mod Calls
pub mod Early
use imbi_api.Prelude.{
  ℕ, suc, ◌≡◌, ◌==◌, String, Bool, true, false, Option, none, some, List, [], ◌∷◌, member,
  IsDistinct,
}
use imbi_api.Prelude.Splits.{take_chars}
use imbi_api.Prelude.Int.{pos, negsuc}
use imbi_api.Valkey.{Valkey, text}
use imbi_api.Maintenance.Status.{Outcome, outcome_field}
use imbi_api.Maintenance.State.{Keys, max_error_len, seeded}
use imbi_api.Maintenance.System.{release}

module _ (V : Valkey) where
  open V use {no_members, sadd, spop, hset, hincrby}

  abbrev popped_of : Keys V → Option (String × V.IdSet) → Option (String × Keys V)
  popped_of k none = none
  popped_of k (some (x, rest)) = some (x, record k { pending = rest })

  -- SPOP of `checkout`.
  unfoldable pub pop_pending : Keys V → Option (String × Keys V)
  pop_pending k = popped_of k (spop k.pending)

  -- HINCRBY in_flight 1, of `checkout`.
  unfoldable pub enter_flight : Keys V → Keys V
  enter_flight k = record k { run = hincrby "in_flight" (pos 1) k.run }

  -- HINCRBY in_flight -1, of `record_outcome` and `requeue`.
  unfoldable pub leave_flight : Keys V → Keys V
  leave_flight k = record k { run = hincrby "in_flight" (negsuc 0) k.run }

  -- HINCRBY of an outcome, of `record_outcome`.
  unfoldable pub add_outcome : Outcome → Keys V → Keys V
  add_outcome o k = record k { run = hincrby (outcome_field o) (pos 1) k.run }

  -- HSET of a failure's detail, of `record_outcome`.
  unfoldable pub add_failure : String → String → Keys V → Keys V
  add_failure x error k = record k {
    failures = hset x (text (take_chars max_error_len error)) k.failures;
  }

  -- SADD of `requeue`.
  unfoldable pub put_back : String → Keys V → Keys V
  put_back x k = record k { pending = sadd x k.pending }

  -- DEL of the pending set, of `cancel_run`.
  unfoldable pub drop_pending : Keys V → Keys V
  drop_pending k = record k { pending = no_members }

  -- HSET of the state, of `_finish`.
  unfoldable pub set_state : String → String → Keys V → Keys V
  set_state state now k = record k {
    run = hset "completed_at" (text now) (hset "state" (text state) k.run);
  }

  -- DEL of the lock, of `_finish`; also its lapse.
  unfoldable pub unlock : Keys V → Keys V
  unlock k = record k { lock = none }

  -- The keys with what the workers are about to do. A project that was popped is not counted yet,
  -- one that is held is counted. A reported one has left the flight and its outcome is not counted
  -- yet, a returned one is back in the pending set and has not left the flight yet. `cleared` says
  -- that a cancellation has dropped the pending set of the run.
  pub record Run : Type 0 where
    pub keys : Keys V
    pub popped : List String
    pub held : List String
    pub reported : ℕ
    pub returned : ℕ
    pub cleared : Bool

  -- One command, at any time. That a command fits what was read before is not asked for: a run may be
  -- marked or its pending set dropped by a call whose reading is out of date. The commands of
  -- `start_run` behind the lock are one step.
  pub data Step : Run → Run → Type 0 where
    start :
        (s : Run) (run_id : String) (ids : List String) (started_by now : String)
        → s.keys.lock ≡ none
        → Step s (record s { keys = seeded V run_id ids now started_by; cleared = false })
    pop :
        (s : Run) (x : String) (k : Keys V)
        → pop_pending s.keys ≡ some (x, k)
        → Step s (record s { keys = k; popped = x ∷ s.popped })
    enter :
        (s : Run) (x : String)
        → member x s.popped ≡ true
        → Step s (record s {
          keys = enter_flight s.keys;
          popped = release x s.popped;
          held = x ∷ s.held;
        })
    report :
        (s : Run) (x : String)
        → member x s.held ≡ true
        → Step s (record s {
          keys = leave_flight s.keys;
          held = release x s.held;
          reported = suc s.reported;
        })
    tally :
        (s : Run) (n : ℕ) (o : Outcome)
        → s.reported ≡ suc n
        → Step s (record s { keys = add_outcome o s.keys; reported = n })
    detail : (s : Run) (x error : String) → Step s (record s { keys = add_failure x error s.keys })
    give_back :
        (s : Run) (x : String)
        → member x s.held ≡ true
        → Step s (record s {
          keys = put_back x s.keys;
          held = release x s.held;
          returned = suc s.returned;
        })
    leave :
        (s : Run) (n : ℕ)
        → s.returned ≡ suc n
        → Step s (record s { keys = leave_flight s.keys; returned = n })
    clear : (s : Run) → Step s (record s { keys = drop_pending s.keys; cleared = true })
    end_as :
        (s : Run) (state now : String)
        → (state == "running") ≡ false
        → Step s (record s { keys = set_state state now s.keys })
    free : (s : Run) → Step s (record s { keys = unlock s.keys })

  pub data Reach (s : Run) : Run → Type 0 where
    here : Reach s s
    next : {t u : Run} → Reach s t → Step t u → Reach s u

  -- No worker is between two commands, or holds a project.
  abbrev pub IsIdle : Run → Type 0
  IsIdle s = (s.popped ≡ []) × (s.held ≡ []) × (s.reported ≡ 0) × (s.returned ≡ 0)

  -- A start finds the workers idle, and seeds distinct projects.
  abbrev pub StartIsIdle : {s t : Run} → Step s t → Type 0
  StartIsIdle (start s run_id ids started_by now free_lock) = IsIdle s × IsDistinct ids
  StartIsIdle (pop s x k e) = Unit
  StartIsIdle (enter s x m) = Unit
  StartIsIdle (report s x m) = Unit
  StartIsIdle (tally s n o e) = Unit
  StartIsIdle (detail s x error) = Unit
  StartIsIdle (give_back s x m) = Unit
  StartIsIdle (leave s n e) = Unit
  StartIsIdle (clear s) = Unit
  StartIsIdle (end_as s state now e) = Unit
  StartIsIdle (free s) = Unit

  abbrev pub StartsAreIdle : {s t : Run} → Reach s t → Type 0
  StartsAreIdle here = Unit
  StartsAreIdle (next r st) = StartsAreIdle r × StartIsIdle st
