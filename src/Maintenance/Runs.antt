-- ===== src/Maintenance/Runs.antt =====
-- What the operations of imbi_api/maintenance/state.py promise their callers.
use imbi_api.Prelude.{
  ℕ, ◌+◌, ◌≡◌, ◌↔◌, refl, String, true, false, none, some, List, [], ◌∷◌, arith, if◌then◌else◌,
  length, ◌≤◌, ◌<◌, IsDistinct,
}
use imbi_api.Prelude.Splits.{take_chars}
use imbi_api.Prelude.Int.{pos, is_pos}
use imbi_api.Valkey.{Valkey, text, int, counter}
use imbi_api.Maintenance.Status.{completed, is_held, is_running, opt_int, Outcome}
use imbi_api.Maintenance.State.{
  max_error_len, Keys, has_active_run, finish, seeded, run_fields, start_from, start_run, begin,
  maybe_finalize, cancel_run, read_status, read_hash, record_outcome, max_failure_details,
}
use imbi_api.Maintenance.State.Seed.{scard-seed}
use imbi_api.Maintenance.State.Books.{Counts, Shows-finish}
use imbi_api.Maintenance.System.{System}
use imbi_api.Maintenance.System.Hands.{IsSound}

module _ (V : Valkey) where
  open V use {
    hget, hset, hget_hset, hget_empty, hlen, hlen_hset, hlen_hset_pos, scard, scard_empty,
    no_members, hlen_hincrby_pos,
  }

  opt_int-field :
      (f : String) (h : V.Hash) (n : ℕ)
      → counter (hget f h) ≡ some (pos n)
      → opt_int (hget f h) ≡ pos n
  opt_int-field f h n e = ground arith

  -- The facts under which a run is finished.
  abbrev pub IsDrained : Keys V → Type 0
  IsDrained k =
      (scard k.pending ≡ 0)
      × (is_pos (opt_int (hget "in_flight" k.run)) ≡ false)
      × (is_running (hget "state" k.run) ≡ true)

  pub maybe_finalize_iff :
      (now : String) (k : Keys V) → ((maybe_finalize V now k).1 ≡ true) ↔ IsDrained k
  unfolding maybe_finalize
  maybe_finalize_iff now k = (λ h. ground arith, λ h. ground arith)

  -- A call that does not finish the run changes nothing; one that does releases the lock.
  pub maybe_finalize-keys :
      (now : String) (k : Keys V)
      → (maybe_finalize V now k).0
        ≡ (if (maybe_finalize V now k).1 then finish V "completed" now k else k)
  unfolding maybe_finalize
  maybe_finalize-keys now k = ground arith

  -- The books of a completed run.
  pub record IsAccountedFor (held : List String) (k : Keys V) : Type 0 where
    pub none_held : held ≡ []
    pub released : k.lock ≡ none
    pub state : (read_status V k).state ≡ completed
    pub remaining : (read_status V k).remaining ≡ 0
    pub in_flight : (read_status V k).in_flight ≡ pos 0
    pub counts : Counts
    pub succeeded : (read_status V k).succeeded ≡ pos counts.succeeded
    pub failed : (read_status V k).failed ≡ pos counts.failed
    pub skipped : (read_status V k).skipped ≡ pos counts.skipped
    pub total : (read_status V k).total ≡ pos (counts.succeeded + counts.failed + counts.skipped)

  read_status-nonempty : (k : Keys V) → 0 < hlen k.run → read_status V k ≡ read_hash V k
  unfolding read_status
  read_status-nonempty k h = ground arith

  length-zero : {A : Type 0} (xs : List A) → length xs ≡ 0 → xs ≡ []
  length-zero [] e = refl
  length-zero (x ∷ xs) e = absurd (omega arith)

  finish_accounts :
      (s : System V) (now : String)
      → IsSound V s
      → IsDrained s.keys
      → IsAccountedFor s.held (finish V "completed" now s.keys)
  unfolding finish
  finish_accounts s now i d =
      let c = i.counts in
      let b = i.booked in
      let shown = Shows-finish V "completed" now s.keys.run c b.shows in
      let idle : c.in_flight ≡ 0 =
        ground (arith, opt_int-field "in_flight" s.keys.run c.in_flight b.shows.in_flight, d.1) in
      let all = b.balance d.2 in
      let read =
        read_status-nonempty (finish V "completed" now s.keys)
          (hlen_hset_pos "completed_at" (text now) (hset "state" (text "completed") s.keys.run)) in
      record {
        none_held = length-zero s.held (omega (arith, b.in_hand, idle));
        released = refl;
        state = rw read (unfold read_hash in simp hget_hset);
        remaining = rw read (unfold read_hash in d.0);
        in_flight = rw read (
            unfold read_hash in
            ground (arith, opt_int-field "in_flight" _ c.in_flight shown.in_flight, idle));
        counts = c;
        succeeded = rw read (
            unfold read_hash in
            ground (arith, opt_int-field "succeeded" _ c.succeeded shown.succeeded));
        failed =
            rw read
              (unfold read_hash in ground (arith, opt_int-field "failed" _ c.failed shown.failed));
        skipped =
            rw read (
              unfold read_hash in
              ground (arith, opt_int-field "skipped" _ c.skipped shown.skipped));
        total = rw read (
            unfold read_hash in
            ground (arith, opt_int-field "total" _ c.total shown.total, idle, all, d.0));
      }

  -- In a state that is sound for whole calls, when `maybe_finalize` completes a run, no worker holds a
  -- project, the lock is free, and every
  -- project of the run was recorded: the status reads `completed`, with nothing remaining or in
  -- flight, and a total that is the sum of the three outcome counters.
  pub maybe_finalize_accounts :
      (s : System V) (now : String)
      → IsSound V s
      → (maybe_finalize V now s.keys).1 ≡ true
      → IsAccountedFor s.held (maybe_finalize V now s.keys).0
  maybe_finalize_accounts s now i h =
      rw (maybe_finalize-keys now s.keys, h)
        (finish_accounts s now i ((maybe_finalize_iff now s.keys).0 h))

  begin-read_status :
      (run_id : String) (ids : List String) (started_by now later : String)
      → IsDistinct ids
      → some (read_status V (begin V run_id ids started_by now later).0)
        ≡ (begin V run_id ids started_by now later).1
  unfolding begin
  begin-read_status run_id [] started_by now later d = refl
  begin-read_status run_id (x ∷ xs) started_by now later d =
      rw
        (read_status-nonempty (seeded V run_id (x ∷ xs) now started_by)
          (unfold seeded run_fields in hlen_hset_pos "skipped" (int (pos 0)) _))
        (unfold read_hash seeded run_fields in
          simp (hget_hset, hget_empty, scard-seed V (x ∷ xs) d))

  -- `start_run` refuses exactly when the lock is held, and then changes nothing.
  pub start_run_exclusive :
      (run_id : String) (ids : List String) (started_by now later : String) (k : Keys V)
      → (((start_run V run_id ids started_by now later k).1 ≡ none) ↔ (is_held k.lock ≡ true))
        × (is_held k.lock ≡ true → (start_run V run_id ids started_by now later k).0 ≡ k)
  unfolding start_run start_from begin
  start_run_exclusive run_id [] started_by now later k = ground arith
  start_run_exclusive run_id (x ∷ xs) started_by now later k = ground arith

  -- The status that `start_run` returns for a run over distinct ids is the one that a
  -- `read_status` right after it reads, and the lock carries the new run's id.
  pub start_run-read_status :
      (run_id : String) (ids : List String) (started_by now later : String) (k : Keys V)
      → k.lock ≡ none
      → IsDistinct ids
      → some (read_status V (start_run V run_id ids started_by now later k).0)
        ≡ (start_run V run_id ids started_by now later k).1
  unfolding start_run
  start_run-read_status run_id ids started_by now later k free d =
      rw free (begin-read_status run_id ids started_by now later d)

  -- `cancel_run` reports success exactly when the lock is held and the stored state is `running`;
  -- it then empties the pending set, frees the lock and stores `cancelled`, and otherwise changes
  -- nothing.
  pub cancel_run_lem :
      (now : String) (k : Keys V)
      → (((cancel_run V now k).1 ≡ true)
          ↔ ((is_held k.lock ≡ true) × (is_running (hget "state" k.run) ≡ true)))
        × ((cancel_run V now k).0 ≡ (
            if (cancel_run V now k).1
            then finish V "cancelled" now (record k { pending = no_members })
            else k))
  unfolding cancel_run has_active_run
  cancel_run_lem now k = ground arith

  -- Recording outcomes never keeps more than `max_failure_details` failure details.
  pub record_outcome-failures :
      (x : String) (o : Outcome) (error : String) (k : Keys V)
      → hlen k.failures ≤ max_failure_details
      → hlen (record_outcome V x o error k).failures ≤ max_failure_details
  unfolding record_outcome
  record_outcome-failures x o error k h =
      ground (arith, hlen_hset x (text (take_chars max_error_len error)) k.failures)
