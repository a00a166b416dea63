-- ===== src/Blueprint/Effects.antt =====
-- What a fix changes, and what a second call of it does.
use imbi_api.Prelude.{
  ◌≡◌, ◌≢◌, refl, arith, eq_iff, eq_refl, inl, inr, String, false, not, ◌||◌, Option, none, some,
  List, ◌==◌, if_both, if_first, if_second, if_taken, if_passed, Bool-cases, Entries, member,
  lookup, lookup-insert, lookup-without,
}
use imbi_api.Blueprint.Schema.{
  Value, Blueprint, is_null, is_missing, is_safe, applicable_blueprints,
}
use imbi_api.Blueprint.Compliance.{stale_blueprint_properties}
use imbi_api.Blueprint.Remedy.{
  RemediationStatus, fixed, noop, partition_id, blueprint_default, set_property, set_to,
  remove_stale, set_default, act, remediate_blueprint,
}

abbrev Remedied : Type 0
Remedied = RemediationStatus × Entries Value

-- The outcome leaves a property as it was.
abbrev Leaves : String → Entries Value → Remedied → Type 0
Leaves other props r = lookup other r.1 ≡ lookup other props

module _ (all : List Blueprint) (types : List String) where
  remove_stale-Leaves :
      (prop other : String) (props : Entries Value)
      → prop ≢ other
      → Leaves other props (remove_stale all types prop props)
  unfolding remove_stale
  remove_stale-Leaves prop other props apart =
      let gone = lookup-without prop other props in
      if_both (Leaves other props) (is_missing (lookup prop props)) _ _ refl (
        if_both (Leaves other props)
          (not
            (member prop (stale_blueprint_properties all (applicable_blueprints all types) props)))
          _ _ refl (ground (arith, gone, apart, eq_iff prop other)))

  set_to-Leaves :
      (prop other : String) (props : Entries Value) (o : Option Value)
      → prop ≢ other
      → Leaves other props (set_to prop props o)
  unfolding set_to set_property
  set_to-Leaves prop other props none apart = refl
  set_to-Leaves prop other props (some v) apart =
      let gone = lookup-without prop other props in
      let put = lookup-insert prop other v props in
      if_both (λ (d : Entries Value). lookup other d ≡ lookup other props) (is_null v) _ _
        (ground (arith, gone, apart, eq_iff prop other))
        (ground (arith, put, apart, eq_iff prop other))

  set_default-Leaves :
      (prop other : String) (props : Entries Value)
      → prop ≢ other
      → Leaves other props (set_default all types prop props)
  unfolding set_default
  set_default-Leaves prop other props apart =
      if_both (Leaves other props) (not (is_missing (lookup prop props))) _ _ refl
        (set_to-Leaves prop other props _ apart)

  -- A fix changes the property that its id names, and no other.
  pub remediate_frame :
      (id other : String) (props : Entries Value)
      → (partition_id id).1 ≢ other
      → lookup other (remediate_blueprint all types id props).1 ≡ lookup other props
  unfolding remediate_blueprint act
  remediate_frame id other props apart =
      let (action, prop) = partition_id id in
      if_both (Leaves other props) (prop == "" || not (is_safe prop)) _ _ refl (
        if_both (Leaves other props) (action == "remove-stale") _ _
          (remove_stale-Leaves prop other props apart)
          (if_both (Leaves other props) (action == "set-default") _ _
            (set_default-Leaves prop other props apart) refl))

  -- The defaults that apply are values, not an empty text.
  abbrev pub HasValues : Type 0
  HasValues =
      (prop : String) (v : Value)
      → blueprint_default (applicable_blueprints all types) prop ≡ some v
      → is_missing (some v) ≡ false

  abbrev IsFixed : Remedied → Type 0
  IsFixed r = r.0 ≡ fixed

  remove_stale_twice :
      (prop : String) (props : Entries Value)
      → IsFixed (remove_stale all types prop props)
      → let once = (remove_stale all types prop props).1 in
        remove_stale all types prop once ≡ (noop, once)
  unfolding remove_stale is_missing
  remove_stale_twice prop props e =
      let (present, e₁) = if_second IsFixed (is_missing (lookup prop props)) _ _ (λ w. cc) e in
      let (stale, e₂) =
        if_second IsFixed
          (not
            (member prop (stale_blueprint_properties all (applicable_blueprints all types) props)))
          _ _ (λ w. cc) e₁ in
      rw (present, stale, lookup-without prop prop props, eq_refl prop) refl

  not_null : (v : Value) → is_missing (some v) ≡ false → is_null v ≡ false
  unfolding is_missing is_null
  not_null v h = ground (arith, h)

  set_to_twice :
      (prop : String) (props : Entries Value) (o : Option Value)
      → ((v : Value) → o ≡ some v → is_missing (some v) ≡ false)
      → IsFixed (set_to prop props o)
      → is_missing (lookup prop (set_to prop props o).1) ≡ false
  unfolding set_to set_property
  set_to_twice prop props none values e = cc
  set_to_twice prop props (some v) values e =
      let there = values v refl in
      rw (not_null v there, lookup-insert prop prop v props, eq_refl prop) there

  set_default_twice :
      (prop : String) (props : Entries Value)
      → HasValues
      → IsFixed (set_default all types prop props)
      → let once = (set_default all types prop props).1 in
        set_default all types prop once ≡ (noop, once)
  unfolding set_default
  set_default_twice prop props values e =
      let (missing, e₁) =
        if_second IsFixed (not (is_missing (lookup prop props))) _ _ (λ w. cc) e in
      let there =
        set_to_twice prop props (blueprint_default (applicable_blueprints all types) prop)
          (values prop) e₁ in
      rw (missing, there) refl

  act_twice :
      (action prop : String) (props : Entries Value)
      → HasValues
      → IsFixed (act all types props (action, prop))
      → let once = (act all types props (action, prop)).1 in
        act all types once (action, prop) ≡ (noop, once)
  unfolding act
  act_twice action prop props values e =
      let (named, e₁) = if_second IsFixed (prop == "" || not (is_safe prop)) _ _ (λ w. cc) e in
      elim (Bool-cases (action == "remove-stale")) [
        | inl a ↦ rw (named, a) (remove_stale_twice prop props (if_taken IsFixed _ _ a e₁))
        | inr a ↦
            let (b, e₂) =
              if_first IsFixed (action == "set-default") _ _ (λ w. cc)
                (if_passed IsFixed _ _ a e₁) in
            rw (named, a, b) (set_default_twice prop props values e₂)
      ]

  -- A fix that was made is made once: the same call again finds nothing to do, and changes nothing.
  -- The defaults have to be values that count as set.
  pub remediate_twice :
      (id : String) (props : Entries Value)
      → HasValues
      → (remediate_blueprint all types id props).0 ≡ fixed
      → let once = (remediate_blueprint all types id props).1 in
        remediate_blueprint all types id once ≡ (noop, once)
  unfolding remediate_blueprint
  remediate_twice id props values e =
      act_twice (partition_id id).0 (partition_id id).1 props values e
