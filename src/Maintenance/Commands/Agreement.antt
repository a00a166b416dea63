-- ===== src/Maintenance/Commands/Agreement.antt =====
-- The counters of a shared run agree with the pending set and the workers, command by command.
use imbi_api.Prelude.{
  ◌+◌, String, ◌≡◌, refl, ap, subst, not, true, false, List, [], arith, length, IsDistinct, ◌==◌,
}
use imbi_api.Valkey.{Valkey}
use imbi_api.Maintenance.State.{Keys, seeded, seed}
use imbi_api.Maintenance.State.Seed.{AreNew, AreNew-empty, scard-seed}
use imbi_api.Maintenance.State.Books.{Shows-run_fields}
use imbi_api.Maintenance.Commands.{
  Run, Step, start, pop, enter, report, tally, detail, give_back, leave, clear, end_as, free, Reach,
  here, next, IsIdle, StartIsIdle, StartsAreIdle, add_failure, drop_pending, set_state, unlock,
}
use imbi_api.Maintenance.Commands.Tally.{IsTallied, IsTallied-end, IsTallied-clear, retally}
use imbi_api.Maintenance.Commands.Agrees.{
  Agrees, Agrees-pop, Agrees-enter, Agrees-report, Agrees-settle, Agrees-give_back, Agrees-leave,
}

module _ (V : Valkey) where
  open V use {
    Hash, IdSet, scard, spop, sadd, has, hget, hset, hincrby, has_popped, has_spop, scard_spop,
    scard_sadd, scard_empty, no_members, hget_hincrby,
  }

  Agrees-clear :
      (s : Run V)
      → Agrees V s
      → Agrees V (record s { keys = drop_pending V s.keys; cleared = true })
  unfolding drop_pending
  Agrees-clear s i = record {
    counts = i.counts;
    tallied =
        IsTallied-clear V s.keys.run (scard s.keys.pending + length s.popped + s.reported)
          (scard no_members + length s.popped + s.reported) (length s.held) s.returned
          (not s.cleared) i.counts (omega (arith, scard_empty)) i.tallied;
    popped_new = AreNew-empty V s.popped;
    held_new = AreNew-empty V s.held;
    apart = i.apart;
    popped_distinct = i.popped_distinct;
    held_distinct = i.held_distinct;
  }

  Agrees-end :
      (s : Run V) (state now : String)
      → (state == "running") ≡ false
      → Agrees V s
      → Agrees V (record s { keys = set_state V state now s.keys })
  unfolding set_state
  Agrees-end s state now e i = record {
    counts = i.counts;
    tallied = IsTallied-end V state now s.keys.run _ _ _ _ i.counts e i.tallied;
    popped_new = i.popped_new;
    held_new = i.held_new;
    apart = i.apart;
    popped_distinct = i.popped_distinct;
    held_distinct = i.held_distinct;
  }

  -- Keys with the same pending set and run hash.
  Agrees-same :
      (s : Run V) (k : Keys V)
      → s.keys.pending ≡ k.pending
      → s.keys.run ≡ k.run
      → Agrees V s
      → Agrees V (record s { keys = k })
  Agrees-same s k p r i = record {
    counts = i.counts;
    tallied =
        subst
          (λ h.
            IsTallied V h (scard k.pending + length s.popped + s.reported) (length s.held)
              s.returned (not s.cleared) i.counts)
          r (retally V _ (ap (λ q. scard q + length s.popped + s.reported) p) i.tallied);
    popped_new = subst (λ q. AreNew V s.popped q) p i.popped_new;
    held_new = subst (λ q. AreNew V s.held q) p i.held_new;
    apart = i.apart;
    popped_distinct = i.popped_distinct;
    held_distinct = i.held_distinct;
  }

  -- A run over distinct projects, just seeded, that no worker has touched.
  abbrev pub fresh_run : String → List String → String → String → Run V
  fresh_run run_id ids now started_by = record {
    keys = seeded V run_id ids now started_by;
    popped = [];
    held = [];
    reported = 0;
    returned = 0;
    cleared = false;
  }

  pub Agrees-fresh_run :
      (run_id : String) (ids : List String) (now started_by : String)
      → IsDistinct ids
      → Agrees V (fresh_run run_id ids now started_by)
  unfolding seeded
  Agrees-fresh_run run_id ids now started_by d =
      let all : scard (seed V (length ids) ids no_members) ≡ length ids = scard-seed V ids d in
      record {
        counts = record {
          total = length ids;
          in_flight = 0;
          succeeded = 0;
          failed = 0;
          skipped = 0;
        };
        tallied = record {
          shows = Shows-run_fields V run_id (length ids) now started_by;
          in_hand = omega arith;
          within = omega (arith, all);
          balance = λ r w. omega (arith, all);
        };
        popped_new = tt;
        held_new = tt;
        apart = tt;
        popped_distinct = tt;
        held_distinct = tt;
      }

  idle_start :
      (s : Run V) (k : Keys V) (i : IsIdle V s)
      → record { keys = k; popped = []; held = []; reported = 0; returned = 0; cleared = false }
        ≡ record s { keys = k; cleared = false }
  idle_start s k (p, h, r, t) = rw (p, h, r, t) refl

  pub Agrees-step : {s t : Run V} (st : Step V s t) → StartIsIdle V st → Agrees V s → Agrees V t
  unfolding add_failure unlock
  Agrees-step (start s run_id ids started_by now lock) idle i =
      subst (Agrees V) (idle_start s (seeded V run_id ids now started_by) idle.0)
        (Agrees-fresh_run run_id ids now started_by idle.1)
  Agrees-step (pop s x k e) idle i = Agrees-pop V s x k e i
  Agrees-step (enter s x m) idle i = Agrees-enter V s x m i
  Agrees-step (report s x m) idle i = Agrees-report V s x m i
  Agrees-step (tally s n o e) idle i = Agrees-settle V s n o e i
  Agrees-step (detail s x error) idle i = Agrees-same s (add_failure V x error s.keys) refl refl i
  Agrees-step (give_back s x m) idle i = Agrees-give_back V s x m i
  Agrees-step (leave s n e) idle i = Agrees-leave V s n e i
  Agrees-step (clear s) idle i = Agrees-clear s i
  Agrees-step (end_as s state now e) idle i = Agrees-end s state now e i
  Agrees-step (free s) idle i = Agrees-same s (unlock V s.keys) refl refl i

  -- From a state in which the counters, the pending set and the workers agree, they agree after any
  -- commands of any number of workers and of the administrator, in any order, if each run was started
  -- when no worker had a project of an earlier one, over distinct projects.
  pub Reach-Agrees : {s t : Run V} (r : Reach V s t) → StartsAreIdle V r → Agrees V s → Agrees V t
  Reach-Agrees here idle i = i
  Reach-Agrees (next r st) idle i = Agrees-step st idle.1 (Reach-Agrees r idle.0 i)
