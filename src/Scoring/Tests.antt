-- ===== src/Scoring/Tests.antt =====
-- The producers on a server that sets each key once.
use imbi_api.Prelude.{
  ◌≡◌, ◌≢◌, ap, String, Bool, true, false, none, List, [], ◌∷◌, if◌then◌else◌, ◌==◌,
}
use imbi_api.Queue.Outside.{Answer, raised, falsy, truthy, written, unknown, errored, Log, Outside}
use imbi_api.Queue.Sync.Enqueue.{jobs}
use imbi_api.Scoring.Enqueue.{stream, enqueue_recompute_bulk, enqueue_each}
use imbi_api.Scoring.Bulk.{debounces, bulk-each}
use imbi_api.Scoring.Daily.{was_set}
use imbi_api.Scoring.Targets.{Policy, attribute}

abbrev nx : Bool → Answer
nx true = falsy
nx false = truthy

-- A server that looks at a part of the log.
abbrev server : (Log → Log) → Outside
server part = record {
  set_nx = λ log key seconds. nx (was_set key (part log));
  delete = λ log key. truthy;
  xadd = λ log stream fields. truthy;
  xack = λ log msg. truthy;
  xpending = λ log msg. unknown;
  set_pause = λ log retry_at ttl. truthy;
  write = λ log s. written;
  get_pause = λ log. none;
  claim = λ log. [];
  read = λ log. none;
  now = λ log. 0;
  run = λ log org project_id limit. errored;
}

nx_lem : (b : Bool) → nx b ≢ raised
nx_lem true e = cc
nx_lem false e = cc

nx_taken : (b : Bool) → b ≡ true → nx b ≢ truthy
nx_taken true h e = cc
nx_taken false h e = cc

abbrev three_ids : List String
three_ids = "p1" ∷ "p2" ∷ "p1" ∷ []

bulk-each_example :
    ((enqueue_recompute_bulk (server debounces) true three_ids "bulk_rescore" none []).0
      ≡ (enqueue_each (server debounces) true three_ids "bulk_rescore" none []).0)
    × (jobs stream
          (enqueue_recompute_bulk (server debounces) true three_ids "bulk_rescore" none []).1
        ≡ jobs stream (enqueue_each (server debounces) true three_ids "bulk_rescore" none []).1)
bulk-each_example =
    bulk-each (server debounces) (λ log other key seconds e. ap (λ l. nx (was_set key l)) e)
      (λ log key seconds. nx_lem (was_set key (debounces log))) (λ log s job e. cc) "bulk_rescore"
      none three_ids []

abbrev whole_log : Log → Log
whole_log log = log

abbrev by_age : Policy
by_age = record { kind = attribute; attribute_name = "language"; targets = "api" ∷ "lib" ∷ [] }

abbrev of_type : String → List String
of_type slug = if slug == "api" then "p1" ∷ "p2" ∷ [] else "p2" ∷ "p3" ∷ []
