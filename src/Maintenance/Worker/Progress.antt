-- ===== src/Maintenance/Worker/Progress.antt =====
-- A worker's tick is a sequence of the steps of a shared run, and enough ticks complete a run.
use mathlib.Core.Path.{subst}
use imbi_api.Prelude.{
  ◌≡◌, refl, String, Bool, true, false, Option, none, some, List, ◌∷◌, ◌&&◌, eq_refl, arith, member,
  Bool-cases, inl, inr,
}
use imbi_api.Valkey.{Valkey}
use imbi_api.Maintenance.Status.{Outcome}
use imbi_api.Maintenance.State.{
  Keys, checkout, maybe_finalize, requeue, record_outcome, has_active_run,
}
use imbi_api.Maintenance.System.{
  System, Reach, here, next, take, report, give_back, finalize, release,
}
use imbi_api.Maintenance.System.Hands.{IsSound}
use imbi_api.Maintenance.System.Sound.{Reach-IsSound}
use imbi_api.Maintenance.Worker.{
  Execution, returned, shutdown, rate_limited, item_failed, crashed, settle, run_item,
  after_checkout, tick_operation, outcome_of,
}

release-cons : (x : String) (h : List String) → release x (x ∷ h) ≡ h
unfolding release
release-cons x h = rw eq_refl

member-cons : (x : String) (h : List String) → member x (x ∷ h) ≡ true
member-cons x h = rw eq_refl

module _ (V : Valkey) where
  -- The system where the keys are `k` and the workers hold `h`.
  abbrev pub at : Keys V → List String → System V
  at k h = record { keys = k; held = h }

  Reach-requeue :
      (s : System V) (k : Keys V) (x : String) (h : List String)
      → Reach V s (at k (x ∷ h))
      → Reach V s (at (requeue V x k) h)
  Reach-requeue s k x h r =
      subst (λ l. Reach V s (at (requeue V x k) l)) (release-cons x h)
        (next r (give_back (at k (x ∷ h)) x (member-cons x h)))

  pub Reach-record :
      (s : System V) (k : Keys V) (x : String) (o : Outcome) (error : String) (h : List String)
      → Reach V s (at k (x ∷ h))
      → Reach V s (at (record_outcome V x o error k) h)
  Reach-record s k x o error h r =
      subst (λ l. Reach V s (at (record_outcome V x o error k) l)) (release-cons x h)
        (next r (report (at k (x ∷ h)) x o error (member-cons x h)))

  Reach-settle :
      (s : System V) (k : Keys V) (x : String) (r : Outcome × String) (written : Bool)
      (now : String) (h : List String)
      → Reach V s (at k (x ∷ h))
      → Reach V s (at (settle V x r written now k) h)
  unfolding settle
  Reach-settle s k x (o, error) true now h r =
      next (Reach-record s k x o error h r) (finalize (at (record_outcome V x o error k) h) now)
  Reach-settle s k x (o, error) false now h r =
      next (Reach-requeue s k x h r) (finalize (at (requeue V x k) h) now)

  Reach-run_item :
      (s : System V) (k : Keys V) (pausable : Bool) (x : String) (e : Execution) (written : Bool)
      (now : String) (h : List String)
      → Reach V s (at k (x ∷ h))
      → Reach V s (at (run_item V pausable x e written now k).keys h)
  unfolding run_item
  Reach-run_item s k pausable x shutdown written now h r = Reach-requeue s k x h r
  Reach-run_item s k pausable x (rate_limited t) written now h r = Reach-requeue s k x h r
  Reach-run_item s k pausable x (returned o) written now h r =
      Reach-settle s k x (outcome_of (returned o)) written now h r
  Reach-run_item s k pausable x (item_failed m) written now h r =
      Reach-settle s k x (outcome_of (item_failed m)) written now h r
  Reach-run_item s k pausable x crashed written now h r =
      Reach-settle s k x (outcome_of crashed) written now h r

  checkout-eq_none : (k k' : Keys V) → checkout V k ≡ (k', none) → k ≡ k'
  unfolding checkout
  checkout-eq_none k k' e = ground arith

  Reach-after_checkout :
      (k : Keys V) (h : List String) (pausable : Bool) (execute : String → Execution)
      (written : Bool) (now : String) (r : Keys V × Option String)
      → checkout V k ≡ r
      → Reach V (at k h) (at (after_checkout V pausable execute written now r).keys h)
  unfolding after_checkout
  Reach-after_checkout k h pausable execute written now (k', none) e =
      subst (λ j. Reach V (at k h) (at (maybe_finalize V now j).0 h)) (checkout-eq_none k k' e)
        (next here (finalize (at k h) now))
  Reach-after_checkout k h pausable execute written now (k', some x) e =
      Reach-run_item (at k h) k' pausable x (execute x) written now h
        (next here (take (at k h) x k' e))

  -- A tick is a sequence of steps of the run, and lets go of all that it takes: afterwards the
  -- workers hold what they held before it.
  pub Reach-tick_operation :
      (k : Keys V) (h : List String) (pausable paused : Bool) (execute : String → Execution)
      (written : Bool) (now : String)
      → Reach V (at k h) (at (tick_operation V pausable paused execute written now k).keys h)
  unfolding tick_operation
  Reach-tick_operation k h pausable paused execute written now =
      elim (Bool-cases (has_active_run V k)) [
        | inr free ↦ rw free here
        | inl held ↦ elim (Bool-cases (pausable && paused)) [
          | inl wait ↦ rw (held, wait) (next here (finalize (at k h) now))
          | inr go ↦
              rw (held, go)
                (Reach-after_checkout k h pausable execute written now (checkout V k) refl)
        ]
      ]

  -- So a tick keeps the books, however the operation ends.
  pub IsSound-tick_operation :
      (k : Keys V) (h : List String) (pausable paused : Bool) (execute : String → Execution)
      (written : Bool) (now : String)
      → IsSound V (at k h)
      → IsSound V (at (tick_operation V pausable paused execute written now k).keys h)
  IsSound-tick_operation k h pausable paused execute written now i =
      Reach-IsSound V i (Reach-tick_operation k h pausable paused execute written now)
