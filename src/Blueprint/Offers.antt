-- ===== src/Blueprint/Offers.antt =====
-- The fixes that the check offers work.
use imbi_api.Prelude.{
  ◌≡◌, refl, subst, arith, eq_refl, inl, inr, All, String, Bool, true, false, not, ◌&&◌, ◌||◌, some,
  List, [], ◌∷◌, Bool-cases, Entries, member, lookup, IsDict,
}
use imbi_api.Blueprint.Schema.{
  Value, Property, Blueprint, is_missing, has_default, is_safe, applicable_blueprints, is_empty,
  defines, node_blueprints,
}
use imbi_api.Blueprint.Compliance.{
  AnalysisResultItem, check_properties, check_blueprints, stale_names, stale_blueprint_properties,
  remove_stale_offer, stale_items, pass_item, findings_of, or_pass, check_blueprint_compliance,
  all_names,
}
use imbi_api.Blueprint.Remedy.{blueprint_default}
use imbi_api.Blueprint.Defaults.{
  Finds, IsDict-Finds, is_some, default_of-later, default_of-own, Covers,
}
use imbi_api.Blueprint.Fixes.{Works, ItemWorks, property-Works, add-Works, remove_stale-Works}

module _ (all : List Blueprint) (types : List String) (props : Entries Value) where
  -- The properties of a blueprint that is among the applicable ones.
  properties-Works :
      (bp : Blueprint) (ps : Entries Property) (later : List AnalysisResultItem)
      → Finds bp.properties ps
      → ((prop : String) (p : Property)
          → lookup prop bp.properties ≡ some p
          → has_default p ≡ true
          → is_some (blueprint_default (applicable_blueprints all types) prop) ≡ true)
      → All (ItemWorks all types props) later
      → All (ItemWorks all types props) (check_properties props bp ps later)
  unfolding check_properties
  properties-Works bp [] later found has h = h
  properties-Works bp ((prop, p) ∷ others) later found has h =
      add-Works all types props _ _
        (property-Works all types props bp.slug prop p (member prop bp.required || p.ui_required)
          (has prop p found.0))
        (properties-Works bp others later found.1 has h)

  blueprints-Works :
      (bps : List Blueprint) (later : List AnalysisResultItem)
      → All (λ bp. IsDict bp.properties) bps
      → Covers (applicable_blueprints all types) bps
      → All (ItemWorks all types props) later
      → All (ItemWorks all types props) (check_blueprints props bps later)
  unfolding check_blueprints blueprint_default
  blueprints-Works [] later dicts covers h = h
  blueprints-Works (bp ∷ bps) later dicts covers h =
      properties-Works bp bp.properties (check_blueprints props bps later)
        (IsDict-Finds bp.properties dicts.0)
        (λ prop p found has.
          covers prop (rw found (default_of-own p (blueprint_default bps prop) has)))
        (blueprints-Works bps later dicts.1
          (λ prop has.
            covers prop
              (default_of-later (lookup prop bp.properties) (blueprint_default bps prop) has))
          h)

  abbrev IsStale : String → Type 0
  IsStale prop =
      (is_missing (lookup prop props) ≡ false)
      × (member prop (stale_blueprint_properties all (applicable_blueprints all types) props)
          ≡ true)

  stale_offer-Works :
      (prop : String) → IsStale prop → Works all types props (remove_stale_offer prop)
  unfolding remove_stale_offer
  stale_offer-Works prop h = elim (Bool-cases (is_safe prop)) [
    | inl safe ↦
        let (done, fixes) = remove_stale-Works all types props prop safe h.0 h.1 in
        rw safe (done, prop, fixes)
    | inr e ↦ rw e tt
  ]

  stale-Works :
      (names : List String)
      → All IsStale names
      → All (ItemWorks all types props) (stale_items names)
  unfolding stale_items
  stale-Works [] h = tt
  stale-Works (prop ∷ names) h = (stale_offer-Works prop h.0, stale-Works names h.1)

  -- Every name of a list of stale names is set, and stands in the list.
  stale_names-IsStale :
      (names : List String)
      → ((name : String)
          → member name (stale_names (applicable_blueprints all types) props names) ≡ true
          → member name (stale_blueprint_properties all (applicable_blueprints all types) props)
            ≡ true)
      → All IsStale (stale_names (applicable_blueprints all types) props names)
  unfolding stale_names
  stale_names-IsStale [] within = tt
  stale_names-IsStale (name ∷ names) within =
      elim (Bool-cases (
        not (defines name (applicable_blueprints all types))
        && not (is_missing (lookup name props)))) [
          | inl kept ↦
              let whole : stale_names (applicable_blueprints all types) props (name ∷ names)
                  ≡ name ∷ stale_names (applicable_blueprints all types) props names =
                rw kept refl in
              let within' =
                subst
                  (λ xs.
                    (n : String)
                    → member n xs ≡ true
                    → member n
                        (stale_blueprint_properties all (applicable_blueprints all types) props)
                      ≡ true)
                  whole within in
              rw kept (
                (
                  (ground (arith, kept), within' name (rw (eq_refl name) refl)),
                  stale_names-IsStale names (λ n m. within' n (ground (arith, m))),
                ))
          | inr left ↦
              let whole : stale_names (applicable_blueprints all types) props (name ∷ names)
                  ≡ stale_names (applicable_blueprints all types) props names =
                rw left refl in
              let within' =
                subst
                  (λ xs.
                    (n : String)
                    → member n xs ≡ true
                    → member n
                        (stale_blueprint_properties all (applicable_blueprints all types) props)
                      ≡ true)
                  whole within in
              rw left (stale_names-IsStale names within')
        ]

  or_pass-Works :
      (b : Bool) (items : List AnalysisResultItem)
      → All (ItemWorks all types props) items
      → All (ItemWorks all types props) (or_pass b items)
  unfolding or_pass pass_item
  or_pass-Works b [] h = (tt, tt)
  or_pass-Works b (i ∷ items) h = h

  findings-Works :
      All (λ bp. IsDict bp.properties) (applicable_blueprints all types)
      → All (ItemWorks all types props) (findings_of all (applicable_blueprints all types) props)
  unfolding findings_of stale_blueprint_properties
  findings-Works dicts =
      blueprints-Works (applicable_blueprints all types)
        (stale_items (stale_blueprint_properties all (applicable_blueprints all types) props)) dicts
        (λ prop h. h)
        (stale-Works (stale_blueprint_properties all (applicable_blueprints all types) props)
          (stale_names-IsStale (all_names (node_blueprints all)) (λ name m. m)))

-- Every fix that the check offers works: applied to the same project, it answers `fixed`, and it
-- removes one property or sets it to the default that applies, and leaves the other properties. The
-- properties of a blueprint have to be a dictionary.
pub check-ItemWorks :
    (all : List Blueprint) (types : List String) (props : Entries Value)
    → All (λ bp. IsDict bp.properties) (applicable_blueprints all types)
    → All (ItemWorks all types props) (check_blueprint_compliance all props types)
unfolding check_blueprint_compliance pass_item
check-ItemWorks [] types props dicts = (tt, tt)
check-ItemWorks (bp ∷ blueprints) types props dicts =
    or_pass-Works (bp ∷ blueprints) types props
      (is_empty (applicable_blueprints (bp ∷ blueprints) types)) _
      (findings-Works (bp ∷ blueprints) types props dicts)
