-- ===== src/Maintenance/System/Booked.antt =====
-- The books of a run hash: its counters against the projects that are pending and held.
use imbi_api.Prelude.{ℕ, ◌+◌, ◌-◌, ◌≤◌, String, ◌≡◌, true, false, some, arith, ◌==◌}
use imbi_api.Prelude.Int.{pos, negsuc}
use imbi_api.Valkey.{Valkey, text}
use imbi_api.Maintenance.Status.{Outcome, is_running, succeeded, failed, skipped, outcome_field}
use imbi_api.Maintenance.State.Books.{
  Counts, recorded, count_outcome, Shows, Shows-give, Shows-count, Shows-finish,
}

module _ (V : Valkey) where
  open V use {
    IdSet, Hash, no_members, sadd, spop, scard, has, hget, hset, hincrby, hget_hset, hget_hincrby,
    scard_empty, scard_sadd, scard_spop, has_popped, has_spop,
  }

  -- The books of a run hash over `waiting` pending projects and the held ones.
  pub record IsBooked (h : Hash) (waiting : ℕ) (held : ℕ) (c : Counts) : Type 0 where
    pub shows : Shows V h c
    pub in_hand : c.in_flight ≡ held
    pub within : waiting + c.in_flight + recorded c ≤ c.total
    -- While the run goes on, every project is pending, held or recorded.
    pub balance : is_running (hget "state" h) ≡ true → c.total ≡ waiting + c.in_flight + recorded c

  pub state-hincrby_count :
      (o : Outcome) (h : Hash) (c : Counts)
      → Shows V h c
      → hget "state" (hincrby (outcome_field o) (pos 1) h) ≡ hget "state" h
  state-hincrby_count succeeded h c s =
      hget_hincrby "succeeded" "state" (pos 1) (pos c.succeeded) h s.succeeded
  state-hincrby_count failed h c s = hget_hincrby "failed" "state" (pos 1) (pos c.failed) h s.failed
  state-hincrby_count skipped h c s =
      hget_hincrby "skipped" "state" (pos 1) (pos c.skipped) h s.skipped

  pub state-finish :
      (state now : String) (h : Hash)
      → hget "state" (hset "completed_at" (text now) (hset "state" (text state) h))
        ≡ some (text state)
  state-finish state now h = simp hget_hset

  -- A run hash that is finished keeps its counters, whatever becomes of the pending set.
  pub IsBooked-finish :
      (state now : String) (h : Hash) (waiting left held : ℕ) (c : Counts)
      → (state == "running") ≡ false
      → left ≤ waiting
      → IsBooked h waiting held c
      → IsBooked (hset "completed_at" (text now) (hset "state" (text state) h)) left held c
  IsBooked-finish state now h waiting left held c ended fewer b = record {
    shows = Shows-finish V state now h c b.shows;
    in_hand = b.in_hand;
    within = omega (arith, b.within);
    balance = λ r. ground (arith, state-finish state now h);
  }

  pub state-give :
      (h : Hash) (c : Counts)
      → Shows V h c
      → hget "state" (hincrby "in_flight" (negsuc 0) h) ≡ hget "state" h
  state-give h c s = hget_hincrby "in_flight" "state" (negsuc 0) (pos c.in_flight) h s.in_flight

  pub IsBooked-report :
      (o : Outcome) (h : Hash) (waiting left held : ℕ) (c : Counts)
      → held ≡ left + 1
      → IsBooked h waiting held c
      → IsBooked
          (hincrby (outcome_field o) (pos 1) (hincrby "in_flight" (negsuc 0) h))
          waiting
          left
          (count_outcome o (record c { in_flight = c.in_flight - 1 }))
  IsBooked-report o h waiting left held c e b =
      let d : Counts = record c { in_flight = c.in_flight - 1 } in
      let given = Shows-give V h c (omega (arith, b.in_hand)) b.shows in
      let same = state-hincrby_count o (hincrby "in_flight" (negsuc 0) h) d given in
      let kept = state-give h c b.shows in
      record {
        shows = Shows-count V o (hincrby "in_flight" (negsuc 0) h) d given;
        in_hand = in_hand o;
        within = within o;
        balance = λ r. balance o (rw (same, kept) at r);
      }
    where
      in_hand :
          (o : Outcome)
          → (count_outcome o (record c { in_flight = c.in_flight - 1 })).in_flight ≡ left
      in_hand succeeded = omega (arith, b.in_hand)
      in_hand failed = omega (arith, b.in_hand)
      in_hand skipped = omega (arith, b.in_hand)

      within :
          (o : Outcome)
          → waiting
              + (count_outcome o (record c { in_flight = c.in_flight - 1 })).in_flight
              + recorded (count_outcome o (record c { in_flight = c.in_flight - 1 }))
            ≤ (count_outcome o (record c { in_flight = c.in_flight - 1 })).total
      within succeeded = omega (arith, b.within, b.in_hand)
      within failed = omega (arith, b.within, b.in_hand)
      within skipped = omega (arith, b.within, b.in_hand)

      balance :
          (o : Outcome)
          → is_running (hget "state" h) ≡ true
          → (count_outcome o (record c { in_flight = c.in_flight - 1 })).total
            ≡ waiting
              + (count_outcome o (record c { in_flight = c.in_flight - 1 })).in_flight
              + recorded (count_outcome o (record c { in_flight = c.in_flight - 1 }))
      balance succeeded r = omega (arith, b.balance r, b.in_hand)
      balance failed r = omega (arith, b.balance r, b.in_hand)
      balance skipped r = omega (arith, b.balance r, b.in_hand)

  pub IsBooked-give :
      (h : Hash) (waiting left held : ℕ) (c : Counts)
      → held ≡ left + 1
      → IsBooked h waiting held c
      → IsBooked
          (hincrby "in_flight" (negsuc 0) h)
          (waiting + 1)
          left
          (record c { in_flight = c.in_flight - 1 })
  IsBooked-give h waiting left held c e b = record {
    shows = Shows-give V h c (omega (arith, b.in_hand)) b.shows;
    in_hand = omega (arith, b.in_hand);
    within = omega (arith, b.within, b.in_hand);
    balance = λ r. omega (arith, b.balance (rw (state-give h c b.shows) at r), b.in_hand);
  }
