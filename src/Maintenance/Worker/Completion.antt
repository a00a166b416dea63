-- ===== src/Maintenance/Worker/Completion.antt =====
-- Enough ticks of one worker complete a run.

use imbi_api.Prelude.{
  ℕ, zero, suc, ◌+◌, ◌-◌, ◌≡◌, refl, String, true, false, some, [], arith, Option-cases, inl, inr,
}
use imbi_api.Prelude.Int.{pos, negsuc}
use imbi_api.Valkey.{Valkey}
use imbi_api.Maintenance.Status.{is_held, is_running}
use imbi_api.Maintenance.State.{Keys, checkout, maybe_finalize, record_outcome, has_active_run}
use imbi_api.Maintenance.State.Books.{Shows-take, Shows-give, Counts}
use imbi_api.Maintenance.System.{here, next, take}
use imbi_api.Maintenance.System.Booked.{state-give, state-hincrby_count}
use imbi_api.Maintenance.System.Hands.{IsSound}
use imbi_api.Maintenance.System.Sound.{Reach-IsSound}
use imbi_api.Maintenance.Runs.{IsAccountedFor, maybe_finalize_accounts}
use imbi_api.Maintenance.Worker.{
  Execution, returned, shutdown, rate_limited, item_failed, crashed, run_item, tick_operation,
  outcome_of,
}
use imbi_api.Maintenance.Worker.Progress.{at, Reach-record}

-- The project is dealt with: neither handed back by a shutdown nor by a rate limit.
abbrev pub Settles : Execution → Type 0
Settles shutdown = ⊥
Settles (rate_limited t) = ⊥
Settles _ = Unit

module _ (V : Valkey) where
  open V use {IdSet, spop, scard, hget, hincrby, hget_hincrby, spop_none, scard_spop}

  -- The loop of `run_worker` over one operation, `now` standing for the clock of each tick.
  unfoldable pub ticks : ℕ → (String → Execution) → String → Keys V → Keys V
  ticks zero execute now k = k
  ticks (suc n) execute now k =
      ticks n execute now (tick_operation V false false execute true now k).keys

  taken : Keys V → IdSet → Keys V
  taken k rest = record k { pending = rest; run = hincrby "in_flight" (pos 1) k.run }

  recorded_item : Keys V → IdSet → String → Execution → Keys V
  unfolding taken
  recorded_item k rest x e = record_outcome V x (outcome_of e).0 (outcome_of e).1 (taken k rest)

  run_item-Settles :
      (x : String) (e : Execution) (now : String) (k : Keys V)
      → Settles e
      → (run_item V false x e true now k).keys
        ≡ (maybe_finalize V now (record_outcome V x (outcome_of e).0 (outcome_of e).1 k)).0
  unfolding run_item
  run_item-Settles x (returned o) now k h = refl
  run_item-Settles x (item_failed m) now k h = refl
  run_item-Settles x crashed now k h = refl
  run_item-Settles x shutdown now k h = absurd h
  run_item-Settles x (rate_limited t) now k h = absurd h

  checkout-popped :
      (k : Keys V) (x : String) (rest : IdSet)
      → spop k.pending ≡ some (x, rest)
      → checkout V k ≡ (taken k rest, some x)
  unfolding checkout taken
  checkout-popped k x rest e = ground arith

  tick-Settles :
      (k : Keys V) (x : String) (rest : IdSet) (execute : String → Execution) (now : String)
      → is_held k.lock ≡ true
      → spop k.pending ≡ some (x, rest)
      → Settles (execute x)
      → (tick_operation V false false execute true now k).keys
        ≡ (maybe_finalize V now (recorded_item k rest x (execute x))).0
  unfolding tick_operation has_active_run recorded_item
  tick-Settles k x rest execute now held e h =
      rw (held, checkout-popped k x rest e) (run_item-Settles x (execute x) now (taken k rest) h)

  -- A run with `left` projects pending, none held, and the lock in place.
  pub record IsUnderWay (left : ℕ) (k : Keys V) : Type 0 where
    pub sound : IsSound V (at V k [])
    pub locked : is_held k.lock ≡ true
    pub on : is_running (hget "state" k.run) ≡ true
    pub pending : scard k.pending ≡ left

  IsUnderWay-record :
      (left : ℕ) (k : Keys V) (x : String) (rest : IdSet) (e : Execution)
      → spop k.pending ≡ some (x, rest)
      → IsUnderWay (suc left) k
      → IsUnderWay left (recorded_item k rest x e)
  unfolding recorded_item taken record_outcome
  IsUnderWay-record left k x rest e popped u =
      let c = u.sound.counts in
      let b = u.sound.booked in
      let first = Shows-take V k.run c b.shows in
      let d : Counts = record c { in_flight = c.in_flight + 1 } in
      let taken_run = hincrby "in_flight" (pos 1) k.run in
      let second = Shows-give V taken_run d (omega arith) first in
      record {
        sound = Reach-IsSound V u.sound (
            Reach-record V (at V k []) (taken k rest) x (outcome_of e).0 (outcome_of e).1 []
              (next here (take (at V k []) x (taken k rest) (checkout-popped k x rest popped))));
        locked = u.locked;
        on =
            rw
              (
                state-hincrby_count V (outcome_of e).0 (hincrby "in_flight" (negsuc 0) taken_run)
                    (record d { in_flight = d.in_flight - 1 }) second,
                state-give V taken_run d first,
                hget_hincrby "in_flight" "state" (pos 1) (pos c.in_flight) k.run b.shows.in_flight,
              )
              u.on;
        pending = omega (arith, u.pending, scard_spop k.pending x rest popped);
      }

  not-drained :
      (left : ℕ) (k : Keys V) (now : String)
      → IsUnderWay (suc left) k
      → (maybe_finalize V now k).0 ≡ k
  unfolding maybe_finalize
  not-drained left k now u = ground (arith, u.pending)

  drained : (k : Keys V) (now : String) → IsUnderWay 0 k → (maybe_finalize V now k).1 ≡ true
  unfolding maybe_finalize
  drained k now u =
      let idle : u.sound.counts.in_flight ≡ 0 = u.sound.booked.in_hand in
      ground (arith, u.pending, u.on, u.sound.booked.shows.in_flight, idle)

  next_popped :
      (n : ℕ) (k : Keys V)
      → IsUnderWay (suc n) k
      → (x : String) × (rest : IdSet) × (spop k.pending ≡ some (x, rest))
  next_popped n k u = elim (Option-cases (spop k.pending)) [
    | inl empty ↦ absurd (omega (arith, u.pending, spop_none k.pending empty))
    | inr ((x, rest), popped) ↦ (x, rest, popped)
  ]

  -- From a run under way with n + 1 pending projects, n + 1 ticks whose executions neither shut
  -- down nor hit a rate limit complete the run with every project accounted for.
  pub ticks_complete :
      (n : ℕ) (execute : String → Execution) (now : String) (k : Keys V)
      → ((x : String) → Settles (execute x))
      → IsUnderWay (suc n) k
      → IsAccountedFor V [] (ticks (suc n) execute now k)
  unfolding ticks
  ticks_complete zero execute now k h u =
      let (x, rest, popped) = next_popped zero k u in
      let v = IsUnderWay-record zero k x rest (execute x) popped u in
      let k' = recorded_item k rest x (execute x) in
      rw (tick-Settles k x rest execute now u.locked popped (h x))
        (maybe_finalize_accounts V (at V k' []) now v.sound (drained k' now v))
  ticks_complete (suc m) execute now k h u =
      let (x, rest, popped) = next_popped (suc m) k u in
      let v = IsUnderWay-record (suc m) k x rest (execute x) popped u in
      let k' = recorded_item k rest x (execute x) in
      rw (tick-Settles k x rest execute now u.locked popped (h x), not-drained m k' now v)
        (ticks_complete m execute now k' h v)
