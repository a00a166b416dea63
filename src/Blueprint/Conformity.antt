-- ===== src/Blueprint/Conformity.antt =====
-- The check passes exactly the projects that conform.
use imbi_api.Prelude.{
  ◌≡◌, ◌↔◌, refl, All, String, Bool, true, false, ◌&&◌, ◌||◌, Option, none, some, List, [], ◌∷◌,
  if◌then◌else◌, Entries, member, lookup,
}
use imbi_api.Blueprint.Schema.{
  Value, Property, Blueprint, is_missing, has_default, is_safe, applicable_blueprints, is_empty,
}
use imbi_api.Blueprint.Compliance.{
  pass, warn, fail, RemediationOffer, AnalysisResultItem, set_default_offer, item, check_value,
  not_in, below, above, number_of, default_hint, check_property, add_item, check_properties,
  check_blueprints, stale_blueprint_properties, stale_items, pass_item, findings_of, or_pass,
  check_blueprint_compliance,
}

-- A value is one of the choices, if there are any, and within the bounds, if it is a number.
abbrev pub IsWithin : Property → Option Value → Type 0
IsWithin p value =
    (not_in value p.enum ≡ false)
    × (below (number_of value) p.minimum ≡ false)
    × (above (number_of value) p.maximum ≡ false)

-- A property that is set is within its limits; one that is not set is neither required nor has a
-- default that could be set.
abbrev pub IsConforming : String → Property → Bool → Option Value → Type 0
IsConforming prop p required value =
    (is_missing value ≡ true → (required ≡ false) × (has_default p && is_safe prop ≡ false))
    × (is_missing value ≡ false → IsWithin p value)

-- No finding, or one that does not pass.
abbrev Passes : Option AnalysisResultItem → Type 0
Passes none = Unit
Passes (some i) = i.status ≡ pass

check_value-IsWithin :
    (section prop : String) (p : Property) (value : Option Value)
    → Passes (check_value section prop p value) ↔ IsWithin p value
unfolding check_value item
check_value-IsWithin section prop p value =
    by (not_in value p.enum) (below (number_of value) p.minimum) (above (number_of value) p.maximum)
  where
    by :
        (a b c : Bool)
        → Passes (
            if a
            then some (item section prop "invalid-enum" fail none)
            else if b
            then some (item section prop "below-minimum" warn none)
            else if c
            then some (item section prop "above-maximum" warn none)
            else none)
          ↔ ((a ≡ false) × (b ≡ false) × (c ≡ false))
    by true b c = (λ e. cc, λ h. let w = h.0 in cc)
    by false true c = (λ e. cc, λ h. let w = h.1 in cc)
    by false false true = (λ e. cc, λ h. let w = h.2 in cc)
    by false false false = (λ e. (refl, refl, refl), λ h. tt)

hint-Passes :
    (section prop : String) (p : Property)
    → Passes (default_hint section prop (set_default_offer prop p))
      ↔ (has_default p && is_safe prop ≡ false)
unfolding default_hint set_default_offer item
hint-Passes section prop p = by (has_default p && is_safe prop) _
  where
    by :
        (b : Bool) (o : RemediationOffer)
        → Passes (default_hint section prop (if b then some o else none)) ↔ (b ≡ false)
    by true o = (λ e. cc, λ h. cc)
    by false o = (λ e. refl, λ h. tt)

check_property-IsConforming :
    (section prop : String) (p : Property) (required : Bool) (value : Option Value)
    → Passes (check_property section prop p required value) ↔ IsConforming prop p required value
unfolding check_property item
check_property-IsConforming section prop p required value = by (is_missing value) required
  where
    by :
        (b r : Bool)
        → Passes (
            if r && b
            then some (item section prop "missing" fail (set_default_offer prop p))
            else if b
            then default_hint section prop (set_default_offer prop p)
            else check_value section prop p value)
          ↔ ((b ≡ true → (r ≡ false) × (has_default p && is_safe prop ≡ false))
              × (b ≡ false → IsWithin p value))
    by true true = (λ e. cc, λ h. let w = (h.0 refl).0 in cc)
    by true false = (
      λ e. ((λ w. (refl, (hint-Passes section prop p).0 e)), λ w. cc),
      λ h. (hint-Passes section prop p).1 (h.0 refl).1,
    )
    by false true = (
      λ e. ((λ w. cc), λ w. (check_value-IsWithin section prop p value).0 e),
      λ h. (check_value-IsWithin section prop p value).1 (h.1 refl),
    )
    by false false = (
      λ e. ((λ w. cc), λ w. (check_value-IsWithin section prop p value).0 e),
      λ h. (check_value-IsWithin section prop p value).1 (h.1 refl),
    )

abbrev pub AllPass : List AnalysisResultItem → Type 0
AllPass items = All (λ i. i.status ≡ pass) items

add-AllPass :
    (o : Option AnalysisResultItem) (items : List AnalysisResultItem)
    → AllPass (add_item o items) ↔ (Passes o × AllPass items)
unfolding add_item
add-AllPass none items = (λ h. (tt, h), λ h. h.1)
add-AllPass (some i) items = (λ h. h, λ h. h)

stale-AllPass : (names : List String) → AllPass (stale_items names) ↔ (names ≡ [])
unfolding stale_items
stale-AllPass [] = (λ h. refl, λ h. tt)
stale-AllPass (name ∷ names) = (λ h. let w = h.0 in cc, λ h. cc)

module _ (props : Entries Value) where
  abbrev pub PropertiesConform : Blueprint → Entries Property → Type 0
  PropertiesConform bp ps =
      All (λ e. IsConforming e.0 e.1 (member e.0 bp.required || e.1.ui_required) (lookup e.0 props))
        ps

  abbrev pub BlueprintsConform : List Blueprint → Type 0
  BlueprintsConform bps = All (λ bp. PropertiesConform bp bp.properties) bps

  properties-AllPass :
      (bp : Blueprint) (ps : Entries Property) (later : List AnalysisResultItem)
      → AllPass (check_properties props bp ps later) ↔ (PropertiesConform bp ps × AllPass later)
  unfolding check_properties
  properties-AllPass bp [] later = (λ h. (tt, h), λ h. h.1)
  properties-AllPass bp ((prop, p) ∷ others) later =
      let required = member prop bp.required || p.ui_required in
      let first = check_property-IsConforming bp.slug prop p required (lookup prop props) in
      let both =
        add-AllPass (check_property bp.slug prop p required (lookup prop props))
          (check_properties props bp others later) in
      let rest = properties-AllPass bp others later in
      (
        λ h. let (a, b) = both.0 h in let (c, d) = rest.0 b in ((first.0 a, c), d),
        λ h. both.1 (first.1 h.0.0, rest.1 (h.0.1, h.1)),
      )

  blueprints-AllPass :
      (bps : List Blueprint) (later : List AnalysisResultItem)
      → AllPass (check_blueprints props bps later) ↔ (BlueprintsConform bps × AllPass later)
  unfolding check_blueprints
  blueprints-AllPass [] later = (λ h. (tt, h), λ h. h.1)
  blueprints-AllPass (bp ∷ bps) later =
      let first = properties-AllPass bp bp.properties (check_blueprints props bps later) in
      let rest = blueprints-AllPass bps later in
      (
        λ h. let (a, b) = first.0 h in let (c, d) = rest.0 b in ((a, c), d),
        λ h. first.1 (h.0.0, rest.1 (h.0.1, h.1)),
      )

or_pass-AllPass :
    (b : Bool) (items : List AnalysisResultItem) → AllPass (or_pass b items) ↔ AllPass items
unfolding or_pass pass_item
or_pass-AllPass b [] = (λ h. tt, λ h. (refl, tt))
or_pass-AllPass b (i ∷ items) = (λ h. h, λ h. h)

-- The check passes exactly if every property of every blueprint that applies conforms, and no
-- property is set that other blueprints define and none that applies.
pub check-AllPass :
    (bp : Blueprint) (blueprints : List Blueprint) (props : Entries Value) (types : List String)
    → let all = bp ∷ blueprints in
      let applicable = applicable_blueprints all types in
      AllPass (check_blueprint_compliance all props types) ↔ (
        BlueprintsConform props applicable × (stale_blueprint_properties all applicable props ≡ []))
unfolding check_blueprint_compliance findings_of
check-AllPass bp blueprints props types =
    let all = bp ∷ blueprints in
    let applicable = applicable_blueprints all types in
    let stale = stale_blueprint_properties all applicable props in
    let outer =
      or_pass-AllPass (is_empty applicable)
        (check_blueprints props applicable (stale_items stale)) in
    let inner = blueprints-AllPass props applicable (stale_items stale) in
    let last = stale-AllPass stale in
    (
      λ h. let (a, b) = inner.0 (outer.0 h) in (a, last.0 b),
      λ h. outer.1 (inner.1 (h.0, last.1 h.1)),
    )
