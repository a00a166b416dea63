-- ===== src/Maintenance/System.antt =====
-- A run shared by the workers of all API instances: the keys of the slug, and the projects that the
-- workers hold between `checkout` and `record_outcome` or `requeue`. A step is one whole call of
-- imbi_api/maintenance/state.py, or the lapse of the lock: the calls of one worker, or of several that
-- do not overlap. Maintenance.Commands has the calls that overlap.
pub mod Held
pub mod Booked
pub mod Hands
pub mod Sound
use imbi_api.Prelude.{
  ◌≡◌, String, Bool, true, false, Option, some, List, [], ◌∷◌, ◌==◌, if◌then◌else◌, member,
  IsDistinct,
}
use imbi_api.Valkey.{Valkey}
use imbi_api.Maintenance.Status.{Outcome}
use imbi_api.Maintenance.State.{
  Keys, start_run, checkout, record_outcome, requeue, maybe_finalize, cancel_run, lapse,
}

-- One occurrence of a held project is let go.
unfoldable pub release : String → List String → List String
release x [] = []
release x (y ∷ ys) = if y == x then ys else y ∷ release x ys

module _ (V : Valkey) where
  pub record System : Type 0 where
    pub keys : Keys V
    pub held : List String

  -- Only a start that finds no project of an earlier run held is a step here.
  pub data Step : System → System → Type 0 where
    start :
        (s : System) (run_id : String) (ids : List String) (started_by now later : String)
        → s.held ≡ []
        → IsDistinct ids
        → Step s (record s { keys = (start_run V run_id ids started_by now later s.keys).0 })
    take :
        (s : System) (x : String) (k : Keys V)
        → checkout V s.keys ≡ (k, some x)
        → Step s (record { keys = k; held = x ∷ s.held })
    report :
        (s : System) (x : String) (o : Outcome) (error : String)
        → member x s.held ≡ true
        → Step s (record { keys = record_outcome V x o error s.keys; held = release x s.held })
    give_back :
        (s : System) (x : String)
        → member x s.held ≡ true
        → Step s (record { keys = requeue V x s.keys; held = release x s.held })
    finalize :
        (s : System) (now : String) → Step s (record s { keys = (maybe_finalize V now s.keys).0 })
    cancel : (s : System) (now : String) → Step s (record s { keys = (cancel_run V now s.keys).0 })
    expire : (s : System) → Step s (record s { keys = lapse V s.keys })

  pub data Reach (s : System) : System → Type 0 where
    here : Reach s s
    next : {t u : System} → Reach s t → Step t u → Reach s u
