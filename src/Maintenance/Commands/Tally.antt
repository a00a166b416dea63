-- ===== src/Maintenance/Commands/Tally.antt =====
-- The counters of a run hash against the numbers of projects, command by command.
use imbi_api.Prelude.{ℕ, suc, ◌+◌, ◌-◌, ◌≤◌, String, ◌≡◌, subst, Bool, true, false, arith, ◌==◌}
use imbi_api.Prelude.Int.{pos, negsuc}
use imbi_api.Valkey.{Valkey, text}
use imbi_api.Maintenance.Status.{Outcome, is_running, succeeded, failed, skipped, outcome_field}
use imbi_api.Maintenance.State.Books.{
  Counts, recorded, count_outcome, Shows, Shows-take, Shows-give, Shows-count, Shows-finish,
}
use imbi_api.Maintenance.System.Booked.{state-hincrby_count, state-give, state-finish}

module _ (V : Valkey) where
  open V use {
    Hash, IdSet, scard, spop, sadd, has, hget, hset, hincrby, has_popped, has_spop, scard_spop,
    scard_sadd, scard_empty, no_members, hget_hincrby,
  }

  -- The counters over the number of projects that are pending, popped or reported (`waiting`), held,
  -- and returned.
  pub record IsTallied (h : Hash) (waiting held returned : ℕ) (whole : Bool) (c : Counts)
      : Type 0 where
    pub shows : Shows V h c
    pub in_hand : c.in_flight ≡ held + returned
    pub within : waiting + held + recorded c ≤ c.total
    pub balance :
        is_running (hget "state" h) ≡ true → whole ≡ true → c.total ≡ waiting + held + recorded c

  pub IsTallied-enter :
      (h : Hash) (waiting held returned : ℕ) (whole : Bool) (c : Counts)
      → IsTallied h (waiting + 1) held returned whole c
      → IsTallied
          (hincrby "in_flight" (pos 1) h)
          waiting
          (held + 1)
          returned
          whole
          (record c { in_flight = c.in_flight + 1 })
  IsTallied-enter h waiting held returned whole c b =
      let same = hget_hincrby "in_flight" "state" (pos 1) (pos c.in_flight) h b.shows.in_flight in
      record {
        shows = Shows-take V h c b.shows;
        in_hand = omega (arith, b.in_hand);
        within = omega (arith, b.within);
        balance = λ r w. omega (arith, b.balance (rw same at r) w);
      }

  pub IsTallied-report :
      (h : Hash) (waiting held returned : ℕ) (whole : Bool) (c : Counts)
      → IsTallied h waiting (held + 1) returned whole c
      → IsTallied
          (hincrby "in_flight" (negsuc 0) h)
          (waiting + 1)
          held
          returned
          whole
          (record c { in_flight = c.in_flight - 1 })
  IsTallied-report h waiting held returned whole c b = record {
    shows = Shows-give V h c (omega (arith, b.in_hand)) b.shows;
    in_hand = omega (arith, b.in_hand);
    within = omega (arith, b.within);
    balance = λ r w. omega (arith, b.balance (rw (state-give V h c b.shows) at r) w);
  }

  pub IsTallied-leave :
      (h : Hash) (waiting held returned : ℕ) (whole : Bool) (c : Counts)
      → IsTallied h waiting held (suc returned) whole c
      → IsTallied
          (hincrby "in_flight" (negsuc 0) h)
          waiting
          held
          returned
          whole
          (record c { in_flight = c.in_flight - 1 })
  IsTallied-leave h waiting held returned whole c b = record {
    shows = Shows-give V h c (omega (arith, b.in_hand)) b.shows;
    in_hand = omega (arith, b.in_hand);
    within = omega (arith, b.within);
    balance = λ r w. omega (arith, b.balance (rw (state-give V h c b.shows) at r) w);
  }

  pub IsTallied-settle :
      (o : Outcome) (h : Hash) (waiting held returned : ℕ) (whole : Bool) (c : Counts)
      → IsTallied h (waiting + 1) held returned whole c
      → IsTallied
          (hincrby (outcome_field o) (pos 1) h)
          waiting
          held
          returned
          whole
          (count_outcome o c)
  IsTallied-settle o h waiting held returned whole c b =
      let same = state-hincrby_count V o h c b.shows in
      let on =
        λ (r : is_running (hget "state" (hincrby (outcome_field o) (pos 1) h)) ≡ true)
            (w : whole ≡ true).
          b.balance (rw same at r) w in
      record {
        shows = Shows-count V o h c b.shows;
        in_hand = in_hand o;
        within = within o;
        balance = balance o on;
      }
    where
      in_hand : (o : Outcome) → (count_outcome o c).in_flight ≡ held + returned
      in_hand succeeded = b.in_hand
      in_hand failed = b.in_hand
      in_hand skipped = b.in_hand

      within :
          (o : Outcome) → waiting + held + recorded (count_outcome o c) ≤ (count_outcome o c).total
      within succeeded = omega (arith, b.within)
      within failed = omega (arith, b.within)
      within skipped = omega (arith, b.within)

      balance :
          (o : Outcome)
          → (is_running (hget "state" (hincrby (outcome_field o) (pos 1) h)) ≡ true
              → whole ≡ true
              → c.total ≡ waiting + 1 + held + recorded c)
          → is_running (hget "state" (hincrby (outcome_field o) (pos 1) h)) ≡ true
          → whole ≡ true
          → (count_outcome o c).total ≡ waiting + held + recorded (count_outcome o c)
      balance succeeded on r w = omega (arith, on r w)
      balance failed on r w = omega (arith, on r w)
      balance skipped on r w = omega (arith, on r w)

  -- The pending set shrinks, and the run does not balance any more; or the run has ended.
  pub IsTallied-end :
      (state now : String) (h : Hash) (waiting held returned : ℕ) (whole : Bool) (c : Counts)
      → (state == "running") ≡ false
      → IsTallied h waiting held returned whole c
      → IsTallied
          (hset "completed_at" (text now) (hset "state" (text state) h))
          waiting
          held
          returned
          whole
          c
  IsTallied-end state now h waiting held returned whole c ended b = record {
    shows = Shows-finish V state now h c b.shows;
    in_hand = b.in_hand;
    within = b.within;
    balance = λ r w. ground (arith, state-finish V state now h);
  }

  pub IsTallied-clear :
      (h : Hash) (waiting left held returned : ℕ) (whole : Bool) (c : Counts)
      → left ≤ waiting
      → IsTallied h waiting held returned whole c
      → IsTallied h left held returned false c
  IsTallied-clear h waiting left held returned whole c less b = record {
    shows = b.shows;
    in_hand = b.in_hand;
    within = omega (arith, b.within);
    balance = λ r w. cc;
  }

  -- A project that goes back to the pending set is counted there and, until it leaves the flight, as
  -- returned.
  pub IsTallied-give_back :
      (h : Hash) (waiting held returned : ℕ) (whole : Bool) (c : Counts)
      → IsTallied h waiting (held + 1) returned whole c
      → IsTallied h (waiting + 1) held (suc returned) whole c
  IsTallied-give_back h waiting held returned whole c b = record {
    shows = b.shows;
    in_hand = omega (arith, b.in_hand);
    within = omega (arith, b.within);
    balance = λ r w. omega (arith, b.balance r w);
  }

  pub retally :
      {h : Hash} {waiting held returned : ℕ} {whole : Bool} {c : Counts} (more : ℕ)
      → waiting ≡ more
      → IsTallied h waiting held returned whole c
      → IsTallied h more held returned whole c
  retally {h} {waiting} {held} {returned} {whole} {c} more e b =
      subst (λ n. IsTallied h n held returned whole c) e b

  pub reheld :
      {h : Hash} {waiting held returned : ℕ} {whole : Bool} {c : Counts} (more : ℕ)
      → held ≡ more
      → IsTallied h waiting held returned whole c
      → IsTallied h waiting more returned whole c
  reheld {h} {waiting} {held} {returned} {whole} {c} more e b =
      subst (λ n. IsTallied h waiting n returned whole c) e b
