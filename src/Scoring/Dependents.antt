-- ===== src/Scoring/Dependents.antt =====
-- `enqueue_dependents` of scoring/queue.py, and what it asks the database: `none` is an exception.
use imbi_api.Prelude.{
  ℕ, String, Bool, true, false, Option, none, some, List, [], ◌∷◌, ◌==◌, if◌then◌else◌,
}
use imbi_api.Queue.Outside.{Log, Outside}
use imbi_api.Scoring.Enqueue.{enqueue_recompute_bulk}

-- Whether the query for an enabled condition policy has a row.
unfoldable pub condition_policies_exist : Option (List String) → Bool
condition_policies_exist none = false
condition_policies_exist (some []) = false
condition_policies_exist (some (row ∷ rows)) = true

-- A value that is missing or empty is left out.
unfoldable pub add_id : Option String → List String → List String
add_id none ids = ids
add_id (some id) ids = if id == "" then ids else id ∷ ids

unfoldable pub ids_of : List (Option String) → List String
ids_of [] = []
ids_of (id ∷ rows) = add_id id (ids_of rows)

unfoldable pub dependent_project_ids : Option (List (Option String)) → List String
dependent_project_ids none = []
dependent_project_ids (some rows) = ids_of rows

module _ (o : Outside) where
  unfoldable pub enqueue_dependents :
      Bool → Option (List String) → Option (List (Option String)) → String → Log → ℕ × Log
  enqueue_dependents false policies dependents reason log = (0, log)
  enqueue_dependents true policies dependents reason log =
      if condition_policies_exist policies
      then enqueue_recompute_bulk o true (dependent_project_ids dependents) reason none log
      else (0, log)
