-- ===== src/Scoring/Targets.antt =====
-- `affected_projects` of imbi_api/scoring/queue.py: the projects that a policy applies to.
use imbi_api.Prelude.{
  ◌≡◌, refl, ap, String, Bool, true, false, ◌||◌, ◌&&◌, not, List, [], ◌∷◌, ◌++◌, map, ◌==◌, eq_iff,
  if◌then◌else◌, member, any, IsDistinct, arith, Bool-cases, inl, inr,
}

-- The policies of the scoring library.
pub data PolicyKind : Type 0 where
  attribute presence age link_presence analysis_result deployment_status condition : PolicyKind

pub record Policy : Type 0 where
  pub kind : PolicyKind
  pub attribute_name : String
  pub targets : List String

-- The policies that look at an attribute of the project.
unfoldable pub needs_attribute : PolicyKind → Bool
needs_attribute attribute = true
needs_attribute presence = true
needs_attribute age = true
needs_attribute _ = false

-- An id that was not seen goes to the end.
unfoldable pub add_unseen : List String → String → List String
add_unseen seen pid = if member pid seen then seen else seen ++ pid ∷ []

unfoldable pub add_ids : List String → List String → List String
add_ids seen [] = seen
add_ids seen (pid ∷ pids) = add_ids (add_unseen seen pid) pids

unfoldable pub add_lists : List String → List (List String) → List String
add_lists seen [] = seen
add_lists seen (pids ∷ lists) = add_lists (add_ids seen pids) lists

-- What the database knows: the attributes of projects, and ids, of all or of one type.
module _ (model_fields all_ids : List String) (of_type : String → List String) where
  unfoldable pub targeted : List String → List String
  targeted [] = all_ids
  targeted (slug ∷ targets) = add_lists [] (map of_type (slug ∷ targets))

  unfoldable pub affected_projects : Policy → List String
  affected_projects p =
      if needs_attribute p.kind && not (member p.attribute_name model_fields)
      then []
      else targeted p.targets

member-append :
    (p : String) (xs ys : List String) → member p (xs ++ ys) ≡ (member p xs || member p ys)
member-append p [] ys = refl
member-append p (x ∷ xs) ys = ground (arith, member-append p xs ys)

member-add_unseen :
    (p : String) (seen : List String) (pid : String)
    → member p (add_unseen seen pid) ≡ (member p seen || pid == p)
unfolding add_unseen
member-add_unseen p seen pid = elim (Bool-cases (member pid seen)) [
  | inl old ↦ rw old (ground (arith, old, eq_iff pid p, λ (e : pid ≡ p). ap (λ x. member x seen) e))
  | inr new ↦ rw new (ground (arith, member-append p seen (pid ∷ [])))
]

member-add_ids :
    (p : String) (seen pids : List String)
    → member p (add_ids seen pids) ≡ (member p seen || member p pids)
unfolding add_ids
member-add_ids p seen [] = ground arith
member-add_ids p seen (pid ∷ pids) =
    ground (arith, member-add_ids p (add_unseen seen pid) pids, member-add_unseen p seen pid)

member-add_lists :
    (p : String) (seen : List String) (lists : List (List String))
    → member p (add_lists seen lists) ≡ (member p seen || any (member p) lists)
unfolding add_lists
member-add_lists p seen [] = ground arith
member-add_lists p seen (pids ∷ lists) =
    ground (arith, member-add_lists p (add_ids seen pids) lists, member-add_ids p seen pids)

IsDistinct-append_one :
    (xs : List String) (x : String)
    → IsDistinct xs
    → member x xs ≡ false
    → IsDistinct (xs ++ x ∷ [])
IsDistinct-append_one [] x d new = (refl, tt)
IsDistinct-append_one (y ∷ xs) x d new = (
  ground (arith, member-append y xs (x ∷ []), d.0, new, eq_iff x y, eq_iff y x),
  IsDistinct-append_one xs x d.1 (ground (arith, new)),
)

IsDistinct-add_unseen :
    (seen : List String) (pid : String) → IsDistinct seen → IsDistinct (add_unseen seen pid)
unfolding add_unseen
IsDistinct-add_unseen seen pid d = elim (Bool-cases (member pid seen)) [
  | inl old ↦ rw old d
  | inr new ↦ rw new (IsDistinct-append_one seen pid d new)
]

IsDistinct-add_ids : (seen pids : List String) → IsDistinct seen → IsDistinct (add_ids seen pids)
unfolding add_ids
IsDistinct-add_ids seen [] d = d
IsDistinct-add_ids seen (pid ∷ pids) d =
    IsDistinct-add_ids (add_unseen seen pid) pids (IsDistinct-add_unseen seen pid d)

IsDistinct-add_lists :
    (seen : List String) (lists : List (List String))
    → IsDistinct seen
    → IsDistinct (add_lists seen lists)
unfolding add_lists
IsDistinct-add_lists seen [] d = d
IsDistinct-add_lists seen (pids ∷ lists) d =
    IsDistinct-add_lists (add_ids seen pids) lists (IsDistinct-add_ids seen pids d)

module _ (model_fields all_ids : List String) (of_type : String → List String) where
  -- A policy's projects, described without an order: by its attribute and its targets.
  abbrev pub is_targeted : List String → String → Bool
  is_targeted [] id = member id all_ids
  is_targeted (slug ∷ targets) id = any (member id) (map of_type (slug ∷ targets))

  abbrev pub applies : Policy → Bool
  applies p = not (needs_attribute p.kind) || member p.attribute_name model_fields

  targeted_lem :
      (targets : List String)
      → IsDistinct all_ids
      → IsDistinct (targeted model_fields all_ids of_type targets)
        × ((id : String)
            → member id (targeted model_fields all_ids of_type targets) ≡ is_targeted targets id)
  unfolding targeted
  targeted_lem [] d = (d, λ id. refl)
  targeted_lem (slug ∷ targets) d = (
    IsDistinct-add_lists [] (map of_type (slug ∷ targets)) tt,
    λ id. member-add_lists id [] (map of_type (slug ∷ targets)),
  )

  -- The projects of a policy have no duplicates, and are those of its target types, or all if it has
  -- no target, unless it needs an attribute that projects do not have; the ids of all projects are
  -- taken to be distinct.
  pub affected_projects_lem :
      (p : Policy)
      → IsDistinct all_ids
      → IsDistinct (affected_projects model_fields all_ids of_type p)
        × ((id : String)
            → member id (affected_projects model_fields all_ids of_type p)
              ≡ (applies p && is_targeted p.targets id))
  unfolding affected_projects
  affected_projects_lem p d =
      let (distinct, members) = targeted_lem p.targets d in
      elim (Bool-cases (needs_attribute p.kind && not (member p.attribute_name model_fields))) [
        | inl missing ↦ rw missing (tt, λ id. ground (arith, missing))
        | inr fits ↦ rw fits (distinct, λ id. ground (arith, fits, members id))
      ]
