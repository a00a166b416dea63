-- ===== src/Blueprint/Tests.antt =====
-- A project of type `service`, with a blueprint of its own and one of another type.
use imbi_api.Prelude.{
  IsDict, ◌≡◌, ◌↔◌, refl, All, String, true, false, Option, none, some, List, [], ◌∷◌, ◌==◌,
  Entries, lookup, insert, without, Bool-cases, inl, inr, subst,
}
use imbi_api.Prelude.Splits.{split_once, first_of, add_char}
use imbi_api.Blueprint.Schema.{
  Value, text, Property, Blueprint, is_null, is_missing, has_default, is_between, is_first, is_word,
  ends, all_word, is_safe, any_of, is_empty, applies, applicable_blueprints, has_key, defines,
  node_blueprints,
}
use imbi_api.Blueprint.Compliance.{
  set_default_id, check_blueprint_compliance, stale_blueprint_properties,
}
use imbi_api.Blueprint.Remedy.{
  remediate_blueprint, partition_id, parts_or, default_of, blueprint_default, set_property, set_to,
  remove_stale, set_default, act,
}
use imbi_api.Blueprint.Fixes.{ItemWorks}
use imbi_api.Blueprint.Offers.{check-ItemWorks}
use imbi_api.Blueprint.Effects.{HasValues}
use imbi_api.Blueprint.Conformity.{AllPass, BlueprintsConform, check-AllPass}

-- Opens the functions that are run below.
schema_open : Unit {0}
unfolding split_once first_of add_char lookup insert without is_null is_missing has_default
    is_between is_first is_word ends all_word is_safe any_of is_empty applies applicable_blueprints
    has_key defines node_blueprints parts_or partition_id default_of blueprint_default set_property
    set_to remove_stale set_default act remediate_blueprint set_default_id
schema_open = tt

abbrev language : Option Value → Property
language default = record {
  type = some "string";
  format = none;
  default = default;
  enum = some (text "python" ∷ text "rust" ∷ []);
  minimum = none;
  maximum = none;
  ui_required = false;
}

abbrev services : Blueprint
services = record {
  slug = "services";
  is_node = true;
  project_types = "service" ∷ [];
  required = "language" ∷ [];
  properties = ("language", language (some (text "python"))) ∷ [];
}

abbrev libraries : Blueprint
libraries = record {
  slug = "libraries";
  is_node = true;
  project_types = "library" ∷ [];
  required = [];
  properties = ("registry", language none) ∷ [];
}

abbrev blueprints : List Blueprint
blueprints = services ∷ libraries ∷ []

abbrev props : Entries Value
props = ("name", text "api") ∷ ("registry", text "pypi") ∷ []

abbrev types : List String
types = "service" ∷ []

dicts : All (λ bp. IsDict bp.properties) (applicable_blueprints blueprints types)
unfolding schema_open
dicts = ((refl, tt), tt)

check-ItemWorks_example :
    All (ItemWorks blueprints types props) (check_blueprint_compliance blueprints props types)
check-ItemWorks_example = check-ItemWorks blueprints types props dicts

check-AllPass_example : AllPass (check_blueprint_compliance blueprints props types) ↔ (
    BlueprintsConform props (applicable_blueprints blueprints types)
    × (stale_blueprint_properties blueprints (applicable_blueprints blueprints types) props ≡ []))
check-AllPass_example = check-AllPass services (libraries ∷ []) props types

values : HasValues blueprints types
unfolding schema_open
values prop v e = elim (Bool-cases ("language" == prop)) [
  | inl hit ↦
      let python : blueprint_default (services ∷ []) prop ≡ some (text "python") = rw hit refl in
      let same : text "python" ≡ v = cc in subst (λ x. is_missing (some x) ≡ false) same refl
  | inr miss ↦ let nothing : blueprint_default (services ∷ []) prop ≡ none = rw miss refl in cc
]
