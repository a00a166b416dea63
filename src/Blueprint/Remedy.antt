-- ===== src/Blueprint/Remedy.antt =====
-- `remediate_blueprint` of blueprint_compliance.py. A property that is set to null is gone.
use imbi_api.Prelude.{
  String, not, ◌||◌, Option, none, some, List, [], ◌∷◌, ◌==◌, if◌then◌else◌, Entries, member,
  lookup, insert, without,
}
use imbi_api.Prelude.Splits.{split_once}
use imbi_api.Blueprint.Schema.{
  Value, Property, Blueprint, is_null, is_missing, has_default, is_safe, applicable_blueprints,
  is_colon,
}
use imbi_api.Blueprint.Compliance.{stale_blueprint_properties}

pub data RemediationStatus : Type 0 where
  fixed noop failed : RemediationStatus

-- The action and the property's name; the name is empty where there is no colon.
unfoldable pub parts_or : String → Option (String × String) → String × String
parts_or id none = (id, "")
parts_or id (some parts) = parts

unfoldable pub partition_id : String → String × String
partition_id id = parts_or id (split_once is_colon id)

unfoldable pub default_of : Option Property → Option Value → Option Value
default_of none later = later
default_of (some p) later = elim later [
  | some v ↦ some v
  | none ↦ if has_default p then p.default else none
]

-- The last blueprint with a default for the property wins.
unfoldable pub blueprint_default : List Blueprint → String → Option Value
blueprint_default [] prop = none
blueprint_default (bp ∷ applicable) prop =
    default_of (lookup prop bp.properties) (blueprint_default applicable prop)

-- SET p.prop = value
unfoldable pub set_property : String → Value → Entries Value → Entries Value
set_property prop value props =
    if is_null value then without prop props else insert prop value props

unfoldable pub remove_stale :
    List Blueprint → List String → String → Entries Value → RemediationStatus × Entries Value
remove_stale all types prop props =
    if is_missing (lookup prop props)
    then (noop, props)
    else if not
        (member prop (stale_blueprint_properties all (applicable_blueprints all types) props))
    then (failed, props)
    else (fixed, without prop props)

unfoldable pub set_to : String → Entries Value → Option Value → RemediationStatus × Entries Value
set_to prop props none = (failed, props)
set_to prop props (some value) = (fixed, set_property prop value props)

unfoldable pub set_default :
    List Blueprint → List String → String → Entries Value → RemediationStatus × Entries Value
set_default all types prop props =
    if not (is_missing (lookup prop props))
    then (noop, props)
    else set_to prop props (blueprint_default (applicable_blueprints all types) prop)

unfoldable pub act :
    List Blueprint
    → List String
    → Entries Value
    → String × String
    → RemediationStatus × Entries Value
act all types props (action, prop) =
    if prop == "" || not (is_safe prop)
    then (failed, props)
    else if action == "remove-stale"
    then remove_stale all types prop props
    else if action == "set-default"
    then set_default all types prop props
    else (failed, props)

unfoldable pub remediate_blueprint :
    List Blueprint → List String → String → Entries Value → RemediationStatus × Entries Value
remediate_blueprint all types id props = act all types props (partition_id id)
