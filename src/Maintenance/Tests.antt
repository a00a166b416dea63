-- ===== src/Maintenance/Tests.antt =====
-- Runs of the maintenance operations on the server in memory.
use imbi_api.Prelude.{
  insert, lookup, ℕ, ◌≡◌, refl, String, true, none, some, List, [], ◌∷◌, arith, length, ◌≤◌,
}
use imbi_api.Prelude.Int.{pos}
use imbi_api.Valkey.InMemory.{in_memory, pop, distinct, increment}
use imbi_api.Maintenance.Status.{running, succeeded, failed, is_running}
use imbi_api.Maintenance.State.{
  Keys, seeded, checkout, record_outcome, maybe_finalize, read_status, read_hash,
  max_failure_details,
}
use imbi_api.Maintenance.State.Books.{Counts, Shows, Shows-run_fields}
use imbi_api.Maintenance.System.Sound.{IsSound-seeded}
use imbi_api.Maintenance.Runs.{IsAccountedFor}
use imbi_api.Maintenance.Worker.{Execution, returned}
use imbi_api.Maintenance.Worker.Completion.{ticks, ticks_complete, IsUnderWay, Settles}
use imbi_api.Maintenance.Stale.{stale_outcome_finalizes_early}

-- Opens the server.
server : Unit {0}
unfolding pop distinct increment insert lookup
server = tt

abbrev two_ids : List String
two_ids = "p1" ∷ "p2" ∷ []

abbrev fresh : List String → Keys in_memory
fresh ids = seeded in_memory "r1" ids "t0" "admin"

abbrev no_keys : Keys in_memory
no_keys = record { lock = none; pending = []; run = []; failures = [] }

no_failures : length (fresh two_ids).failures ≤ max_failure_details
unfolding seeded
no_failures = omega arith

succeeding : String → Execution
succeeding x = returned succeeded

under_way : IsUnderWay in_memory 2 (fresh two_ids)
unfolding server seeded
under_way = record {
  sound = IsSound-seeded in_memory "r1" two_ids "t0" "admin" (refl, (refl, tt));
  locked = refl;
  on = refl;
  pending = refl;
}

succeeding-Settles : (x : String) → Settles (succeeding x)
unfolding succeeding
succeeding-Settles x = tt

ticks_complete_example :
    IsAccountedFor in_memory [] (ticks in_memory 2 succeeding "t1" (fresh two_ids))
ticks_complete_example =
    ticks_complete in_memory 1 succeeding "t1" (fresh two_ids) succeeding-Settles under_way

abbrev no_outcomes : ℕ → Counts
no_outcomes n = record { total = n; in_flight = 0; succeeded = 0; failed = 0; skipped = 0 }

fresh-Shows : (ids : List String) → Shows in_memory (fresh ids).run (no_outcomes (length ids))
unfolding seeded
fresh-Shows ids = Shows-run_fields in_memory "r1" (length ids) "t0" "admin"

fresh_runs : is_running (in_memory.hget "state" (fresh ("p1" ∷ [])).run) ≡ true
unfolding server seeded
fresh_runs = refl

one_pending : distinct (fresh ("p1" ∷ [])).pending ≡ 1
unfolding server seeded
one_pending = refl

-- p0 is held since an earlier, cancelled run; its outcome arrives before p1 is checked out.
abbrev late : Keys in_memory
late = record_outcome in_memory "p0" succeeded "" (fresh ("p1" ∷ []))

late_taken : checkout in_memory late ≡ ((checkout in_memory late).0, some "p1")
unfolding server seeded checkout record_outcome
late_taken = refl

stale_outcome_finalizes_early_example :
    (maybe_finalize in_memory "t1" (checkout in_memory late).0).1 ≡ true
stale_outcome_finalizes_early_example =
    stale_outcome_finalizes_early in_memory (fresh ("p1" ∷ [])) (checkout in_memory late).0
      (no_outcomes 1) "p0" "p1" succeeded "" "t1" (fresh-Shows ("p1" ∷ [])) refl fresh_runs
      one_pending late_taken

-- p1 is checked out and recorded as failed.
after_one : Keys in_memory
after_one = record_outcome in_memory "p1" failed "boom" (checkout in_memory (fresh two_ids)).0

after_one_status : read_status in_memory after_one ≡ record {
  state = running;
  run_id = some "r1";
  total = pos 2;
  remaining = 1;
  in_flight = pos 0;
  succeeded = pos 0;
  failed = pos 1;
  skipped = pos 0;
  started_at = some "t0";
  started_by = some "admin";
  completed_at = none;
}
unfolding server after_one seeded checkout record_outcome read_status read_hash
after_one_status = refl
