-- ===== src/Maintenance/System/Sound.antt =====
-- Every whole call on a run keeps its invariant, where no two calls overlap.

use imbi_api.Prelude.{
  String, ◌≡◌, refl, Option, none, some, List, [], ◌∷◌, arith, length, IsDistinct, ltb, Bool-cases,
  inl, inr,
}
use imbi_api.Prelude.Int.{is_pos}
use imbi_api.Valkey.{Valkey}
use imbi_api.Maintenance.Status.{is_running, is_held, opt_int}
use imbi_api.Maintenance.State.{
  seeded, start_from, start_run, maybe_finalize, cancel_run, seed, lapse, begin,
}
use imbi_api.Maintenance.State.Seed.{AreNew-empty, scard-seed}
use imbi_api.Maintenance.State.Books.{Shows-run_fields}
use imbi_api.Maintenance.System.Booked.{IsBooked-finish}
use imbi_api.Maintenance.System.{
  System, Step, start, take, report, give_back, finalize, cancel, expire, Reach, here, next,
}
use imbi_api.Maintenance.System.Hands.{IsSound, IsSound-report, IsSound-give_back, IsSound-checkout}

module _ (V : Valkey) where
  open V use {
    IdSet, Hash, no_members, sadd, spop, scard, has, hget, hset, hincrby, hget_hset, hget_hincrby,
    scard_empty, scard_sadd, scard_spop, has_popped, has_spop,
  }

  IsSound-finalize :
      (s : System V) (now : String)
      → IsSound V s
      → IsSound V (record s { keys = (maybe_finalize V now s.keys).0 })
  unfolding maybe_finalize
  IsSound-finalize s now i = elim (Bool-cases (ltb 0 (scard s.keys.pending))) [
    | inl more ↦ rw more i
    | inr drained ↦ elim (Bool-cases (is_pos (opt_int (hget "in_flight" s.keys.run)))) [
      | inl busy ↦ rw (drained, busy) i
      | inr quiet ↦ elim (Bool-cases (is_running (hget "state" s.keys.run))) [
        | inl on ↦
            rw (drained, quiet, on)
              (record {
                counts = i.counts;
                booked =
                    IsBooked-finish V "completed" now s.keys.run (scard s.keys.pending)
                      (scard s.keys.pending) (length s.held) i.counts refl (omega arith) i.booked;
                apart = i.apart;
                distinct = i.distinct;
              })
        | inr off ↦ rw (drained, quiet, off) i
      ]
    ]
  ]

  IsSound-cancel :
      (s : System V) (now : String)
      → IsSound V s
      → IsSound V (record s { keys = (cancel_run V now s.keys).0 })
  unfolding cancel_run
  IsSound-cancel s now i = elim (Bool-cases (is_held s.keys.lock)) [
    | inr free ↦ rw free i
    | inl locked ↦ elim (Bool-cases (is_running (hget "state" s.keys.run))) [
      | inr off ↦ rw (locked, off) i
      | inl on ↦
          rw (locked, on)
            (record {
              counts = i.counts;
              booked =
                  IsBooked-finish V "cancelled" now s.keys.run (scard s.keys.pending)
                    (scard no_members) (length s.held) i.counts refl (omega (arith, scard_empty))
                    i.booked;
              apart = AreNew-empty V s.held;
              distinct = i.distinct;
            })
    ]
  ]

  -- A fresh run over distinct ids, with nothing held.
  pub IsSound-seeded :
      (run_id : String) (ids : List String) (now started_by : String)
      → IsDistinct ids
      → IsSound V (record { keys = seeded V run_id ids now started_by; held = [] })
  unfolding seeded
  IsSound-seeded run_id ids now started_by d =
      let all : scard (seed V (length ids) ids no_members) ≡ length ids = scard-seed V ids d in
      record {
        counts = record {
          total = length ids;
          in_flight = 0;
          succeeded = 0;
          failed = 0;
          skipped = 0;
        };
        booked = record {
          shows = Shows-run_fields V run_id (length ids) now started_by;
          in_hand = refl;
          within = omega (arith, all);
          balance = λ r. omega (arith, all);
        };
        apart = tt;
        distinct = tt;
      }

  IsSound-begin :
      (run_id : String) (ids : List String) (started_by now later : String)
      → IsDistinct ids
      → IsSound V (record { keys = (begin V run_id ids started_by now later).0; held = [] })
  unfolding begin
  IsSound-begin run_id [] started_by now later d =
      IsSound-finalize (record { keys = seeded V run_id [] now started_by; held = [] }) later
        (IsSound-seeded run_id [] now started_by d)
  IsSound-begin run_id (x ∷ xs) started_by now later d =
      IsSound-seeded run_id (x ∷ xs) now started_by d

  IsSound-start_from :
      (lock : Option String) (s : System V) (run_id : String) (ids : List String)
      (started_by now later : String)
      → s.held ≡ []
      → IsDistinct ids
      → IsSound V s
      → IsSound V (record s { keys = (start_from V lock run_id ids started_by now later s.keys).0 })
  unfolding start_from
  IsSound-start_from (some holder) s run_id ids started_by now later quiet d i = i
  IsSound-start_from none s run_id ids started_by now later quiet d i =
      rw quiet (IsSound-begin run_id ids started_by now later d)

  IsSound-start :
      (s : System V) (run_id : String) (ids : List String) (started_by now later : String)
      → s.held ≡ []
      → IsDistinct ids
      → IsSound V s
      → IsSound V (record s { keys = (start_run V run_id ids started_by now later s.keys).0 })
  unfolding start_run
  IsSound-start s run_id ids started_by now later quiet d i =
      IsSound-start_from s.keys.lock s run_id ids started_by now later quiet d i

  IsSound-expire : (s : System V) → IsSound V s → IsSound V (record s { keys = lapse V s.keys })
  unfolding lapse
  IsSound-expire s i = record {
    counts = i.counts;
    booked = i.booked;
    apart = i.apart;
    distinct = i.distinct;
  }

  -- Every step keeps the invariant.
  pub IsSound-step : {s t : System V} → Step V s t → IsSound V s → IsSound V t
  IsSound-step (start s run_id ids started_by now later quiet d) i =
      IsSound-start s run_id ids started_by now later quiet d i
  IsSound-step (take s x k e) i = IsSound-checkout V s x k e i
  IsSound-step (report s x o error m) i = IsSound-report V s x o error m i
  IsSound-step (give_back s x m) i = IsSound-give_back V s x m i
  IsSound-step (finalize s now) i = IsSound-finalize s now i
  IsSound-step (cancel s now) i = IsSound-cancel s now i
  IsSound-step (expire s) i = IsSound-expire s i

  -- From a sound state, whole calls one after another lead to a sound state.
  pub Reach-IsSound : {s t : System V} → IsSound V s → Reach V s t → IsSound V t
  Reach-IsSound i here = i
  Reach-IsSound i (next r st) = IsSound-step st (Reach-IsSound i r)
