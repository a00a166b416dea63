-- ===== src/Maintenance/Stale.antt =====
-- A worker that still holds a project of a cancelled run when the next run starts.
use imbi_api.Prelude.{
  ℕ, ◌≡◌, refl, String, true, false, some, arith, ◌==◌, if◌then◌else◌, Option-cases, inl, inr, ap,
}
use imbi_api.Prelude.Int.{pos, negsuc, ◌+ℤ◌}
use imbi_api.Valkey.{Valkey, int, counter}
use imbi_api.Maintenance.Status.{Outcome, succeeded, failed, skipped, outcome_field, is_running}
use imbi_api.Maintenance.State.{Keys, checkout, maybe_finalize, record_outcome}
use imbi_api.Maintenance.State.Books.{Counts, Shows}

module _ (V : Valkey) where
  open V use {Hash, IdSet, spop, scard, hget, hincrby, hget_hincrby, spop_none, scard_spop}

  -- The hash after an outcome that no `checkout` of this run precedes, and then a `checkout`.
  stale_hash : Outcome → Hash → Hash
  stale_hash o h =
      hincrby "in_flight" (pos 1)
        (hincrby (outcome_field o) (pos 1) (hincrby "in_flight" (negsuc 0) h))

  -- The counter of an outcome.
  abbrev count_of : Outcome → Counts → ℕ
  count_of succeeded c = c.succeeded
  count_of failed c = c.failed
  count_of skipped c = c.skipped

  counter-outcome :
      (o : Outcome) (h : Hash) (c : Counts)
      → Shows V h c
      → counter (hget (outcome_field o) h) ≡ some (pos (count_of o c))
  counter-outcome succeeded h c s = s.succeeded
  counter-outcome failed h c s = s.failed
  counter-outcome skipped h c s = s.skipped

  outcome-ne-other :
      (o : Outcome)
      → ((outcome_field o == "in_flight") ≡ false)
        × ((outcome_field o == "state") ≡ false)
        × (("in_flight" == outcome_field o) ≡ false)
  outcome-ne-other succeeded = (refl, refl, refl)
  outcome-ne-other failed = (refl, refl, refl)
  outcome-ne-other skipped = (refl, refl, refl)

  module _ (o : Outcome) (h : Hash) (c : Counts) (s : Shows V h c) (quiet : c.in_flight ≡ 0) where
    given : Hash
    given = hincrby "in_flight" (negsuc 0) h

    given_law :
        (g : String)
        → hget g given
          ≡ (if "in_flight" == g then some (int (pos c.in_flight +ℤ negsuc 0)) else hget g h)
    unfolding given
    given_law g = hget_hincrby "in_flight" g (negsuc 0) (pos c.in_flight) h s.in_flight

    counted_law :
        (g : String)
        → hget g (hincrby (outcome_field o) (pos 1) given) ≡ (
            if outcome_field o == g then some (int (pos (count_of o c) +ℤ pos 1)) else hget g given)
    counted_law g =
        hget_hincrby (outcome_field o) g (pos 1) (pos (count_of o c)) given
          (rw (given_law (outcome_field o), (outcome-ne-other o).2) (counter-outcome o h c s))

    negative : hget "in_flight" (hincrby (outcome_field o) (pos 1) given) ≡ some (int (negsuc 0))
    unfolding ◌+ℤ◌
    negative = rw (counted_law "in_flight", (outcome-ne-other o).0, given_law "in_flight", quiet)

    stale_law :
        (g : String)
        → hget g (stale_hash o h) ≡ (
            if "in_flight" == g
            then some (int (negsuc 0 +ℤ pos 1))
            else hget g (hincrby (outcome_field o) (pos 1) given))
    unfolding stale_hash given
    stale_law g =
        hget_hincrby "in_flight" g (pos 1) (negsuc 0) (hincrby (outcome_field o) (pos 1) given)
          (ap counter negative)

    stale-in_flight : hget "in_flight" (stale_hash o h) ≡ some (int (pos 0))
    unfolding ◌+ℤ◌
    stale-in_flight = rw (stale_law "in_flight")

    stale-state : hget "state" (stale_hash o h) ≡ hget "state" h
    stale-state =
        rw (stale_law "state", counted_law "state", (outcome-ne-other o).1, given_law "state")

  -- A run under way with nothing in flight and one project pending. A stale outcome arrives, and
  -- then a worker checks the last project out: `maybe_finalize` completes the run although that
  -- project is in flight.
  pub stale_outcome_finalizes_early :
      (k k' : Keys V) (c : Counts) (x y : String) (o : Outcome) (error now : String)
      → Shows V k.run c
      → c.in_flight ≡ 0
      → is_running (hget "state" k.run) ≡ true
      → scard k.pending ≡ 1
      → checkout V (record_outcome V x o error k) ≡ (k', some y)
      → (maybe_finalize V now k').1 ≡ true
  unfolding checkout record_outcome maybe_finalize
  stale_outcome_finalizes_early k k' c x y o error now s quiet on one e =
      elim (Option-cases (spop k.pending)) [
        | inl empty ↦ absurd (omega (arith, spop_none k.pending empty))
        | inr ((z, rest), popped) ↦
            let run : k'.run ≡ stale_hash o k.run = unfold stale_hash in ground arith in
            let left : k'.pending ≡ rest = ground arith in
            let few : scard k'.pending ≡ 0 =
              rw left (omega (arith, scard_spop k.pending z rest popped)) in
            let idle : hget "in_flight" k'.run ≡ some (int (pos 0)) =
              rw run (stale-in_flight o k.run c s quiet) in
            let still : is_running (hget "state" k'.run) ≡ true =
              rw (run, stale-state o k.run c s quiet) on in
            ground (arith, few, idle, still)
      ]
