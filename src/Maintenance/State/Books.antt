-- ===== src/Maintenance/State/Books.antt =====
-- The counters of a run hash, and how each operation moves them.
use imbi_api.Prelude.{ℕ, ◌+◌, ◌-◌, ◌<◌, String, ◌≡◌, some, arith}
use imbi_api.Prelude.Int.{pos, negsuc, ◌+ℤ◌}
use imbi_api.Valkey.{Valkey, text, counter}
use imbi_api.Maintenance.Status.{Outcome, succeeded, failed, skipped, outcome_field}
use imbi_api.Maintenance.State.{run_fields}

-- The counters of a run, as numbers.
pub record Counts : Type 0 where
  pub total : ℕ
  pub in_flight : ℕ
  pub succeeded : ℕ
  pub failed : ℕ
  pub skipped : ℕ

-- The projects with a recorded outcome.
abbrev pub recorded : Counts → ℕ
recorded c = c.succeeded + c.failed + c.skipped

abbrev pub count_outcome : Outcome → Counts → Counts
count_outcome succeeded c = record c { succeeded = c.succeeded + 1 }
count_outcome failed c = record c { failed = c.failed + 1 }
count_outcome skipped c = record c { skipped = c.skipped + 1 }

module _ (V : Valkey) where
  open V use {Hash, hget, hset, hincrby, hget_empty, hget_hset, hget_hincrby, spop}

  abbrev FieldIs : String → ℕ → Hash → Type 0
  FieldIs f n h = counter (hget f h) ≡ some (pos n)

  -- The run hash holds these counters.
  pub record Shows (h : Hash) (c : Counts) : Type 0 where
    pub total : FieldIs "total" c.total h
    pub in_flight : FieldIs "in_flight" c.in_flight h
    pub succeeded : FieldIs "succeeded" c.succeeded h
    pub failed : FieldIs "failed" c.failed h
    pub skipped : FieldIs "skipped" c.skipped h

  pub Shows-take :
      (h : Hash) (c : Counts)
      → Shows h c
      → Shows (hincrby "in_flight" (pos 1) h) (record c { in_flight = c.in_flight + 1 })
  unfolding ◌+ℤ◌
  Shows-take h c s =
      let law =
        λ (g : String). hget_hincrby "in_flight" g (pos 1) (pos c.in_flight) h s.in_flight in
      record {
        total = rw (law "total") s.total;
        in_flight = rw (law "in_flight") (ground arith);
        succeeded = rw (law "succeeded") s.succeeded;
        failed = rw (law "failed") s.failed;
        skipped = rw (law "skipped") s.skipped;
      }

  pub Shows-give :
      (h : Hash) (c : Counts)
      → 0 < c.in_flight
      → Shows h c
      → Shows (hincrby "in_flight" (negsuc 0) h) (record c { in_flight = c.in_flight - 1 })
  unfolding ◌+ℤ◌
  Shows-give h c held s =
      let law =
        λ (g : String). hget_hincrby "in_flight" g (negsuc 0) (pos c.in_flight) h s.in_flight in
      record {
        total = rw (law "total") s.total;
        in_flight = rw (law "in_flight") (ground arith);
        succeeded = rw (law "succeeded") s.succeeded;
        failed = rw (law "failed") s.failed;
        skipped = rw (law "skipped") s.skipped;
      }

  pub Shows-count :
      (o : Outcome) (h : Hash) (c : Counts)
      → Shows h c
      → Shows (hincrby (outcome_field o) (pos 1) h) (count_outcome o c)
  unfolding ◌+ℤ◌
  Shows-count succeeded h c s =
      let law =
        λ (g : String). hget_hincrby "succeeded" g (pos 1) (pos c.succeeded) h s.succeeded in
      record {
        total = rw (law "total") s.total;
        in_flight = rw (law "in_flight") s.in_flight;
        succeeded = rw (law "succeeded") (ground arith);
        failed = rw (law "failed") s.failed;
        skipped = rw (law "skipped") s.skipped;
      }
  Shows-count failed h c s =
      let law = λ (g : String). hget_hincrby "failed" g (pos 1) (pos c.failed) h s.failed in
      record {
        total = rw (law "total") s.total;
        in_flight = rw (law "in_flight") s.in_flight;
        succeeded = rw (law "succeeded") s.succeeded;
        failed = rw (law "failed") (ground arith);
        skipped = rw (law "skipped") s.skipped;
      }
  Shows-count skipped h c s =
      let law = λ (g : String). hget_hincrby "skipped" g (pos 1) (pos c.skipped) h s.skipped in
      record {
        total = rw (law "total") s.total;
        in_flight = rw (law "in_flight") s.in_flight;
        succeeded = rw (law "succeeded") s.succeeded;
        failed = rw (law "failed") s.failed;
        skipped = rw (law "skipped") (ground arith);
      }

  pub Shows-finish :
      (state now : String) (h : Hash) (c : Counts)
      → Shows h c
      → Shows (hset "completed_at" (text now) (hset "state" (text state) h)) c
  Shows-finish state now h c s = record {
    total = simp hget_hset s.total;
    in_flight = simp hget_hset s.in_flight;
    succeeded = simp hget_hset s.succeeded;
    failed = simp hget_hset s.failed;
    skipped = simp hget_hset s.skipped;
  }

  pub Shows-run_fields :
      (run_id : String) (total : ℕ) (started_at started_by : String)
      → Shows
          (run_fields V run_id total started_at started_by)
          (record { total = total; in_flight = 0; succeeded = 0; failed = 0; skipped = 0 })
  unfolding run_fields
  Shows-run_fields run_id total started_at started_by = record {
    total = simp hget_hset;
    in_flight = simp hget_hset;
    succeeded = simp hget_hset;
    failed = simp hget_hset;
    skipped = simp hget_hset;
  }
