-- ===== src/Blueprint/Compliance.antt =====
-- The check of blueprint_compliance.py. A finding keeps its slug, its status and its offer; the
-- wording of titles, descriptions and labels is left out.
use Prim.Native.String.{◌++◌, ◌∷◌}
use imbi_api.Prelude.{
  String, Bool, true, false, not, ◌&&◌, ◌||◌, Option, none, some, List, [], ◌∷◌, if◌then◌else◌,
  Entries, member, lookup,
}
use imbi_api.Prelude.Sorted.{insert_name}
use imbi_api.Prelude.Int.{ℤ}
use imbi_api.Blueprint.Schema.{
  Value, Property, Blueprint, less, as_number, is_in, is_missing, has_default, is_safe,
  applicable_blueprints, node_blueprints, defines, is_empty, colon,
}

pub data ItemStatus : Type 0 where
  pass warn fail : ItemStatus

pub record RemediationOffer : Type 0 where
  pub id : String
  pub destructive : Bool

pub record AnalysisResultItem : Type 0 where
  pub slug : String
  pub status : ItemStatus
  pub remediation : Option RemediationOffer

unfoldable pub set_default_id : String → String
set_default_id prop = "set-default" ++ (colon ∷ prop)

unfoldable pub remove_stale_id : String → String
remove_stale_id prop = "remove-stale" ++ (colon ∷ prop)

unfoldable pub set_default_offer : String → Property → Option RemediationOffer
set_default_offer prop p =
    if has_default p && is_safe prop
    then some (record { id = set_default_id prop; destructive = false })
    else none

unfoldable pub item :
    String → String → String → ItemStatus → Option RemediationOffer → AnalysisResultItem
item section prop kind status offer = record {
  slug = "blueprint-compliance:" ++ section ++ ":" ++ prop ++ ":" ++ kind;
  status = status;
  remediation = offer;
}

unfoldable pub not_in : Option Value → Option (List Value) → Bool
not_in (some v) (some choices) = not (is_in v choices)
not_in _ _ = false

-- isinstance(value, (int, float)) and value < bound, and the other way round.
unfoldable pub below : Option ℤ → Option ℤ → Bool
below (some n) (some minimum) = less n minimum
below _ _ = false

unfoldable pub above : Option ℤ → Option ℤ → Bool
above (some n) (some maximum) = less maximum n
above _ _ = false

unfoldable pub number_of : Option Value → Option ℤ
number_of none = none
number_of (some v) = as_number v

unfoldable pub check_value : String → String → Property → Option Value → Option AnalysisResultItem
check_value section prop p value =
    if not_in value p.enum
    then some (item section prop "invalid-enum" fail none)
    else if below (number_of value) p.minimum
    then some (item section prop "below-minimum" warn none)
    else if above (number_of value) p.maximum
    then some (item section prop "above-maximum" warn none)
    else none

unfoldable pub default_hint : String → String → Option RemediationOffer → Option AnalysisResultItem
default_hint section prop none = none
default_hint section prop (some offer) = some (item section prop "use-default" warn (some offer))

unfoldable pub check_property :
    String → String → Property → Bool → Option Value → Option AnalysisResultItem
check_property section prop p required value =
    if required && is_missing value
    then some (item section prop "missing" fail (set_default_offer prop p))
    else if is_missing value
    then default_hint section prop (set_default_offer prop p)
    else check_value section prop p value

unfoldable pub add_item :
    Option AnalysisResultItem → List AnalysisResultItem → List AnalysisResultItem
add_item none items = items
add_item (some i) items = i ∷ items

module _ (props : Entries Value) where
  unfoldable pub check_properties :
      Blueprint → Entries Property → List AnalysisResultItem → List AnalysisResultItem
  check_properties bp [] later = later
  check_properties bp ((prop, p) ∷ others) later =
      add_item
        (check_property bp.slug prop p (member prop bp.required || p.ui_required)
          (lookup prop props))
        (check_properties bp others later)

  unfoldable pub check_blueprints :
      List Blueprint → List AnalysisResultItem → List AnalysisResultItem
  check_blueprints [] later = later
  check_blueprints (bp ∷ blueprints) later =
      check_properties bp bp.properties (check_blueprints blueprints later)

unfoldable pub add_keys : Entries Property → List String → List String
add_keys [] names = names
add_keys ((key, p) ∷ others) names = insert_name key (add_keys others names)

-- The names that the node blueprints define, in order.
unfoldable pub all_names : List Blueprint → List String
all_names [] = []
all_names (bp ∷ blueprints) = add_keys bp.properties (all_names blueprints)

-- The names that no applicable blueprint defines, and that are set.
unfoldable pub stale_names : List Blueprint → Entries Value → List String → List String
stale_names applicable props [] = []
stale_names applicable props (name ∷ names) =
    let later = stale_names applicable props names in
    if not (defines name applicable) && not (is_missing (lookup name props))
    then name ∷ later
    else later

unfoldable pub stale_blueprint_properties :
    List Blueprint → List Blueprint → Entries Value → List String
stale_blueprint_properties all applicable props =
    stale_names applicable props (all_names (node_blueprints all))

unfoldable pub remove_stale_offer : String → Option RemediationOffer
remove_stale_offer prop =
    if is_safe prop then some (record { id = remove_stale_id prop; destructive = true }) else none

unfoldable pub stale_items : List String → List AnalysisResultItem
stale_items [] = []
stale_items (prop ∷ names) =
    record {
      slug = "blueprint-compliance:stale:" ++ prop;
      status = warn;
      remediation = remove_stale_offer prop;
    }
    ∷ stale_items names

unfoldable pub pass_item : String → AnalysisResultItem
pass_item kind = record {
  slug = "blueprint-compliance:" ++ kind;
  status = pass;
  remediation = none;
}

unfoldable pub findings_of :
    List Blueprint → List Blueprint → Entries Value → List AnalysisResultItem
findings_of all applicable props =
    check_blueprints props applicable
      (stale_items (stale_blueprint_properties all applicable props))

unfoldable pub or_pass : Bool → List AnalysisResultItem → List AnalysisResultItem
or_pass nothing_applies [] =
    pass_item (if nothing_applies then "no-applicable" else "all-pass") ∷ []
or_pass nothing_applies (i ∷ items) = i ∷ items

-- Over the enabled Project blueprints, the project's properties and the slugs of its types.
unfoldable pub check_blueprint_compliance :
    List Blueprint → Entries Value → List String → List AnalysisResultItem
check_blueprint_compliance [] props types = pass_item "no-blueprints" ∷ []
check_blueprint_compliance (bp ∷ blueprints) props types =
    let applicable = applicable_blueprints (bp ∷ blueprints) types in
    or_pass (is_empty applicable) (findings_of (bp ∷ blueprints) applicable props)
