-- ===== src/Blueprint/Fixes.antt =====
-- What one offer of the check in imbi_api/blueprint_compliance.py does when it is applied.
use imbi_api.Prelude.{
  ◌≡◌, ◌⊎◌, ◌==◌, lookup-insert, lookup-without, refl, inl, inr, All, String, Bool, true, false,
  ◌&&◌, Option, none, some, List, if◌then◌else◌, Bool-cases, Entries, member, lookup,
}
use imbi_api.Blueprint.Schema.{
  Value, Property, Blueprint, is_null, is_missing, has_default, is_safe, applicable_blueprints,
}
use imbi_api.Blueprint.Compliance.{
  RemediationOffer, AnalysisResultItem, set_default_id, remove_stale_id, set_default_offer, item,
  check_value, not_in, below, above, number_of, fail, warn, default_hint, check_property, add_item,
  stale_blueprint_properties,
}
use imbi_api.Blueprint.Remedy.{
  fixed, blueprint_default, set_property, set_to, remove_stale, set_default, act,
  remediate_blueprint,
}
use imbi_api.Blueprint.Defaults.{partition-set, partition-remove, safe_named, is_some}

module _ (all : List Blueprint) (types : List String) (props : Entries Value) where
  -- One property has a new value, or none, and the others are as before.
  abbrev pub Changes : String → Option Value → Entries Value → Type 0
  Changes prop value after =
      (other : String) → lookup other after ≡ (if prop == other then value else lookup other props)

  abbrev applicable : List Blueprint
  applicable = applicable_blueprints all types

  -- The fix removes the property, or sets it to its default; a null is no value.
  abbrev pub Fixes : String → String → Entries Value → Type 0
  Fixes id prop after =
      ((id ≡ remove_stale_id prop) × Changes prop none after)
      ⊎ ((v : Value) × (id ≡ set_default_id prop)
          × (blueprint_default applicable prop ≡ some v)
          × Changes prop (if is_null v then none else some v) after)

  -- Applying the offer, if there is one, fixes the property.
  abbrev pub Works : Option RemediationOffer → Type 0
  Works none = Unit
  Works (some offer) =
      let r = remediate_blueprint all types offer.id props in
      (r.0 ≡ fixed) × (prop : String) × Fixes offer.id prop r.1

  abbrev pub ItemWorks : AnalysisResultItem → Type 0
  ItemWorks i = Works i.remediation

  set_property-Changes :
      (prop : String) (v : Value)
      → Changes prop (if is_null v then none else some v) (set_property prop v props)
  unfolding set_property
  set_property-Changes prop v other = elim (Bool-cases (is_null v)) [
    | inl null ↦ rw (null, lookup-without prop other props) refl
    | inr value ↦ rw (value, lookup-insert prop other v props) refl
  ]

  set_to-Fixes :
      (prop : String) (o : Option Value)
      → blueprint_default applicable prop ≡ o
      → is_some o ≡ true
      → ((set_to prop props o).0 ≡ fixed) × Fixes (set_default_id prop) prop (set_to prop props o).1
  unfolding set_to
  set_to-Fixes prop none found h = cc
  set_to-Fixes prop (some v) found h = (refl, inr (v, refl, found, set_property-Changes prop v))

  set_default-Works :
      (prop : String)
      → is_safe prop ≡ true
      → is_missing (lookup prop props) ≡ true
      → is_some (blueprint_default applicable prop) ≡ true
      → let r = remediate_blueprint all types (set_default_id prop) props in
        (r.0 ≡ fixed) × Fixes (set_default_id prop) prop r.1
  unfolding remediate_blueprint act set_default
  set_default-Works prop safe missing has =
      rw (partition-set prop, safe_named prop safe, safe, missing) (set_to-Fixes prop _ refl has)

  pub remove_stale-Works :
      (prop : String)
      → is_safe prop ≡ true
      → is_missing (lookup prop props) ≡ false
      → member prop (stale_blueprint_properties all applicable props) ≡ true
      → let r = remediate_blueprint all types (remove_stale_id prop) props in
        (r.0 ≡ fixed) × Fixes (remove_stale_id prop) prop r.1
  unfolding remediate_blueprint act remove_stale
  remove_stale-Works prop safe present stale =
      rw (partition-remove prop, safe_named prop safe, safe, present, stale)
        (refl, inl (refl, λ other. lookup-without prop other props))

  offer-Works :
      (prop : String) (p : Property)
      → is_missing (lookup prop props) ≡ true
      → (has_default p ≡ true → is_some (blueprint_default applicable prop) ≡ true)
      → Works (set_default_offer prop p)
  unfolding set_default_offer
  offer-Works prop p missing has = elim (Bool-cases (has_default p)) [
    | inr e ↦ rw e tt
    | inl e ↦ elim (Bool-cases (is_safe prop)) [
      | inr f ↦ rw (e, f) tt
      | inl f ↦
          let (done, fixes) = set_default-Works prop f missing (has e) in
          rw (e, f) (done, prop, fixes)
    ]
  ]

  abbrev pub MaybeWorks : Option AnalysisResultItem → Type 0
  MaybeWorks none = Unit
  MaybeWorks (some i) = ItemWorks i

  hint-Works :
      (section prop : String) (o : Option RemediationOffer)
      → Works o
      → MaybeWorks (default_hint section prop o)
  unfolding default_hint item
  hint-Works section prop none h = tt
  hint-Works section prop (some offer) h = h

  value-Works :
      (section prop : String) (p : Property) (value : Option Value)
      → MaybeWorks (check_value section prop p value)
  unfolding check_value item
  value-Works section prop p value =
      by (not_in value p.enum) (below (number_of value) p.minimum)
        (above (number_of value) p.maximum)
    where
      by :
          (a b c : Bool)
          → MaybeWorks (
              if a
              then some (item section prop "invalid-enum" fail none)
              else if b
              then some (item section prop "below-minimum" warn none)
              else if c
              then some (item section prop "above-maximum" warn none)
              else none)
      by true b c = tt
      by false true c = tt
      by false false true = tt
      by false false false = tt

  pub property-Works :
      (section prop : String) (p : Property) (required : Bool)
      → (has_default p ≡ true → is_some (blueprint_default applicable prop) ≡ true)
      → MaybeWorks (check_property section prop p required (lookup prop props))
  unfolding check_property item
  property-Works section prop p required has = elim (Bool-cases (is_missing (lookup prop props))) [
    | inl missing ↦ rw missing (when_missing required (offer-Works prop p missing has))
    | inr present ↦ rw present (when_present required)
  ]
    where
      when_missing :
          (b : Bool)
          → Works (set_default_offer prop p)
          → MaybeWorks (
              if b && true
              then some (item section prop "missing" fail (set_default_offer prop p))
              else default_hint section prop (set_default_offer prop p))
      when_missing true h = h
      when_missing false h = hint-Works section prop (set_default_offer prop p) h

      when_present :
          (b : Bool)
          → MaybeWorks (
              if b && false
              then some (item section prop "missing" fail (set_default_offer prop p))
              else check_value section prop p (lookup prop props))
      when_present true = value-Works section prop p (lookup prop props)
      when_present false = value-Works section prop p (lookup prop props)

  pub add-Works :
      (o : Option AnalysisResultItem) (items : List AnalysisResultItem)
      → MaybeWorks o
      → All ItemWorks items
      → All ItemWorks (add_item o items)
  unfolding add_item
  add-Works none items h hs = hs
  add-Works (some i) items h hs = (h, hs)
