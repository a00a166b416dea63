-- ===== src/Maintenance/Commands/Calls.antt =====
-- The calls of imbi_api/maintenance/state.py are sequences of the commands, when nothing comes
-- between them.
use imbi_api.Prelude.{
  suc, ◌≡◌, refl, String, Bool, true, false, some, List, ◌∷◌, arith, eq_refl, member, Option-cases,
  Bool-cases, inl, inr, subst, ◌==◌, not, ◌&&◌, ltb, if_both,
}
use imbi_api.Prelude.Int.{is_pos}
use imbi_api.Valkey.{Valkey}
use imbi_api.Maintenance.Status.{Outcome, is_failed, is_running, opt_int}
use imbi_api.Maintenance.State.{
  Keys, checkout, record_outcome, requeue, maybe_finalize, cancel_run, finish, has_active_run,
  max_failure_details,
}
use imbi_api.Maintenance.System.{release}
use imbi_api.Maintenance.Commands.{
  Run, pop, enter, report, tally, detail, give_back, leave, clear, end_as, free, Reach, here, next,
  pop_pending, enter_flight, leave_flight, add_outcome, add_failure, put_back, drop_pending,
  set_state, unlock,
}

module _ (V : Valkey) where
  open V use {Hash, IdSet, spop, scard, hget, hlen}

  released : (x : String) (h : List String) → release x (x ∷ h) ≡ h
  unfolding release
  released x h = rw (eq_refl x) refl

  checkout-commands :
      (k k' : Keys V) (x : String)
      → checkout V k ≡ (k', some x)
      → (j : Keys V) × (pop_pending V k ≡ some (x, j)) × (enter_flight V j ≡ k')
  unfolding checkout pop_pending enter_flight
  checkout-commands k k' x e = elim (Option-cases (spop k.pending)) [
    | inl drained ↦ absurd (ground arith)
    | inr ((y, rest), taken) ↦ (record k { pending = rest }, ground arith, ground arith)
  ]

  pub Reach-checkout :
      (s : Run V) (k : Keys V) (x : String)
      → checkout V s.keys ≡ (k, some x)
      → Reach V s (record s { keys = k; held = x ∷ s.held })
  Reach-checkout s k x e =
      let (j, taken, entered) = checkout-commands s.keys k x e in
      let taken_run : Run V = record s { keys = j; popped = x ∷ s.popped } in
      let r = next (next here (pop s x j taken)) (enter taken_run x (rw (eq_refl x) refl)) in
      subst (λ k. Reach V s (record s { keys = k; held = x ∷ s.held })) entered
        (subst
          (λ p. Reach V s (record s { keys = enter_flight V j; popped = p; held = x ∷ s.held }))
          (released x s.popped) r)

  pub Reach-requeue :
      (s : Run V) (x : String)
      → member x s.held ≡ true
      → Reach V s (record s { keys = requeue V x s.keys; held = release x s.held })
  unfolding requeue put_back leave_flight
  Reach-requeue s x m = next (next here (give_back s x m)) (
      leave
        (record s {
          keys = put_back V x s.keys;
          held = release x s.held;
          returned = suc s.returned;
        })
        s.returned refl)

  pub Reach-record_outcome :
      (s : Run V) (x : String) (o : Outcome) (error : String)
      → member x s.held ≡ true
      → Reach V s (record s { keys = record_outcome V x o error s.keys; held = release x s.held })
  unfolding record_outcome leave_flight add_outcome add_failure
  Reach-record_outcome s x o error m =
      let out : Run V = record s {
        keys = leave_flight V s.keys;
        held = release x s.held;
        reported = suc s.reported;
      } in
      let done : Run V = record s {
        keys = add_outcome V o (leave_flight V s.keys);
        held = release x s.held;
      } in
      let r : Reach V s done = next (next here (report s x m)) (tally out s.reported o refl) in
      let detailed =
        is_failed o && not (error == "") && ltb (hlen s.keys.failures) max_failure_details in
      elim (Bool-cases detailed) [
        | inl written ↦ rw written (next r (detail done x error))
        | inr left ↦ rw left r
      ]

  Reach-finish :
      (s t : Run V) (state now : String)
      → (state == "running") ≡ false
      → Reach V s t
      → Reach V s (record t { keys = finish V state now t.keys })
  unfolding finish set_state unlock
  Reach-finish s t state now e r =
      next (next r (end_as t state now e)) (free (record t { keys = set_state V state now t.keys }))

  pub Reach-maybe_finalize :
      (s : Run V) (now : String) → Reach V s (record s { keys = (maybe_finalize V now s.keys).0 })
  unfolding maybe_finalize
  Reach-maybe_finalize s now =
      let C : Keys V × Bool → Type 0 = λ r. Reach V s (record s { keys = r.0 }) in
      if_both C (ltb 0 (scard s.keys.pending)) _ _ here (
        if_both C (is_pos (opt_int (hget "in_flight" s.keys.run))) _ _ here (
          if_both C (is_running (hget "state" s.keys.run)) _ _
            (Reach-finish s s "completed" now refl here) here))

  pub Reach-cancel_run :
      (s : Run V) (now : String)
      → (t : Run V) × Reach V s t × (t.keys ≡ (cancel_run V now s.keys).0)
  unfolding cancel_run drop_pending
  Reach-cancel_run s now =
      let C : Keys V × Bool → Type 0 = λ r. (t : Run V) × Reach V s t × (t.keys ≡ r.0) in
      let dropped : Run V = record s { keys = drop_pending V s.keys; cleared = true } in
      if_both C (has_active_run V s.keys) _ _
        (if_both C (is_running (hget "state" s.keys.run)) _ _
          (_, Reach-finish s dropped "cancelled" now refl (next here (clear s)), refl)
          (s, here, refl))
        (s, here, refl)
