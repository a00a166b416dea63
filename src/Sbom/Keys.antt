-- ===== src/Sbom/Keys.antt =====
-- The keys of the components that `parse` of imbi_api/sbom.py keeps.
use imbi_api.Prelude.{
  ◌≡◌, refl, ap, ◌∙◌, String, Bool, true, false, ◌||◌, Option, none, some, List, [], ◌∷◌, ◌++◌,
  eq_iff, if◌then◌else◌, any, arith, Bool-cases, inl, inr, subst, sym,
}
use imbi_api.Sbom.Components.{
  PackageUrl, Component, NormalizedComponent, normalize, has_key, add_component, add_components,
  supported_spec_version, is_supported, after_reading, parse, object, normalized,
}

-- No two components have one key.
abbrev pub AreDistinct : List NormalizedComponent → Type 0
AreDistinct [] = Unit
AreDistinct (c ∷ others) = (any (has_key c.purl_name c.version) others ≡ false) × AreDistinct others

-- The first component with a key.
abbrev pub first_with : String → String → List NormalizedComponent → Option NormalizedComponent
first_with purl_name version [] = none
first_with purl_name version (c ∷ others) =
    let later = first_with purl_name version others in
    if has_key purl_name version c then some c else later

abbrev first_step :
    String
    → String
    → Option NormalizedComponent
    → Option NormalizedComponent
    → Option NormalizedComponent
first_step purl_name version none later = later
first_step purl_name version (some c) later = if has_key purl_name version c then some c else later

-- The first of the components, in the library's order, that normalizes to a key.
abbrev pub first_normalized :
    (PackageUrl → String) → String → String → List Component → Option NormalizedComponent
first_normalized to_text purl_name version [] = none
first_normalized to_text purl_name version (component ∷ others) =
    first_step purl_name version (normalize to_text component)
      (first_normalized to_text purl_name version others)

abbrev first_of_two :
    Option NormalizedComponent → Option NormalizedComponent → Option NormalizedComponent
first_of_two none later = later
first_of_two (some c) later = some c

first_with-append :
    (p v : String) (xs ys : List NormalizedComponent)
    → first_with p v (xs ++ ys) ≡ first_of_two (first_with p v xs) (first_with p v ys)
first_with-append p v [] ys = refl
first_with-append p v (x ∷ xs) ys = elim (Bool-cases (has_key p v x)) [
  | inl here ↦ rw here refl
  | inr there ↦ rw there (first_with-append p v xs ys)
]

any-append :
    (f : NormalizedComponent → Bool) (xs ys : List NormalizedComponent)
    → any f (xs ++ ys) ≡ (any f xs || any f ys)
any-append f [] ys = refl
any-append f (x ∷ xs) ys = ground (arith, any-append f xs ys)

AreDistinct-append_one :
    (xs : List NormalizedComponent) (c : NormalizedComponent)
    → AreDistinct xs
    → any (has_key c.purl_name c.version) xs ≡ false
    → AreDistinct (xs ++ c ∷ [])
AreDistinct-append_one [] c d new = (refl, tt)
AreDistinct-append_one (x ∷ xs) c d new = (
  ground (
    arith,
    any-append (has_key x.purl_name x.version) xs (c ∷ []),
    d.0,
    new,
    eq_iff x.purl_name c.purl_name,
    eq_iff c.purl_name x.purl_name,
    eq_iff x.version c.version,
    eq_iff c.version x.version,
  ),
  AreDistinct-append_one xs c d.1 (ground (arith, new)),
)

AreDistinct-add_component :
    (seen : List NormalizedComponent) (c : Option NormalizedComponent)
    → AreDistinct seen
    → AreDistinct (add_component seen c)
unfolding add_component
AreDistinct-add_component seen none d = d
AreDistinct-add_component seen (some c) d =
    elim (Bool-cases (any (has_key c.purl_name c.version) seen)) [
      | inl old ↦ rw old d
      | inr new ↦ rw new (AreDistinct-append_one seen c d new)
    ]

AreDistinct-add_components :
    (to_text : PackageUrl → String) (seen : List NormalizedComponent) (read : List Component)
    → AreDistinct seen
    → AreDistinct (add_components to_text seen read)
unfolding add_components
AreDistinct-add_components to_text seen [] d = d
AreDistinct-add_components to_text seen (c ∷ read) d =
    AreDistinct-add_components to_text (add_component seen (normalize to_text c)) read
      (AreDistinct-add_component seen (normalize to_text c) d)

module _ (p v : String) where
  first_of_two-found :
      (seen : List NormalizedComponent) (y : Option NormalizedComponent)
      → any (has_key p v) seen ≡ true
      → first_of_two (first_with p v seen) y ≡ first_with p v seen
  first_of_two-found [] y h = cc
  first_of_two-found (x ∷ seen) y h = elim (Bool-cases (has_key p v x)) [
    | inl here ↦ rw here refl
    | inr there ↦ rw there (first_of_two-found seen y (ground (arith, there, h)))
  ]

  first_of_two_assoc :
      (a b c : Option NormalizedComponent)
      → first_of_two (first_of_two a b) c ≡ first_of_two a (first_of_two b c)
  first_of_two_assoc none b c = refl
  first_of_two_assoc (some x) b c = refl

  first_with_one :
      (c : NormalizedComponent) (y : Option NormalizedComponent)
      → first_of_two (first_with p v (c ∷ [])) y ≡ first_step p v (some c) y
  first_with_one c y = elim (Bool-cases (has_key p v c)) [
    | inl here ↦ rw here refl
    | inr there ↦ rw there refl
  ]

  same_key :
      (c : NormalizedComponent) (seen : List NormalizedComponent)
      → has_key p v c ≡ true
      → any (has_key c.purl_name c.version) seen ≡ true
      → any (has_key p v) seen ≡ true
  same_key c seen here old =
      let name : c.purl_name ≡ p = ground (arith, here, eq_iff c.purl_name p) in
      let version : c.version ≡ v = ground (arith, here, eq_iff c.version v) in
      subst (λ n. any (has_key n v) seen ≡ true) name
        (subst (λ w. any (has_key c.purl_name w) seen ≡ true) version old)

  first_with-add_component :
      (seen : List NormalizedComponent) (c : Option NormalizedComponent)
      (y : Option NormalizedComponent)
      → first_of_two (first_with p v (add_component seen c)) y
        ≡ first_of_two (first_with p v seen) (first_step p v c y)
  unfolding add_component
  first_with-add_component seen none y = refl
  first_with-add_component seen (some c) y =
      elim (Bool-cases (any (has_key c.purl_name c.version) seen)) [
        | inl old ↦ rw old (elim (Bool-cases (has_key p v c)) [
          | inl here ↦
              let known = same_key c seen here old in
              rw here
                (first_of_two-found seen y known ∙ sym (first_of_two-found seen (some c) known))
          | inr there ↦ rw there refl
        ])
        | inr new ↦ rw new (
            ap (λ x. first_of_two x y) (first_with-append p v seen (c ∷ []))
            ∙ first_of_two_assoc (first_with p v seen) (first_with p v (c ∷ [])) y
            ∙ ap (first_of_two (first_with p v seen)) (first_with_one c y))
      ]

  none_last : (a : Option NormalizedComponent) → a ≡ first_of_two a none
  none_last none = refl
  none_last (some c) = refl

  first_with-add_components :
      (to_text : PackageUrl → String) (seen : List NormalizedComponent) (read : List Component)
      → first_with p v (add_components to_text seen read)
        ≡ first_of_two (first_with p v seen) (first_normalized to_text p v read)
  unfolding add_components
  first_with-add_components to_text seen [] = none_last (first_with p v seen)
  first_with-add_components to_text seen (c ∷ read) =
      first_with-add_components to_text (add_component seen (normalize to_text c)) read
      ∙ first_with-add_component seen (normalize to_text c) (first_normalized to_text p v read)

-- A document of the supported version that the library can read is normalized to components with
-- distinct keys, and under each key to the first of the components that the library yields with that key, or to none if
-- there is none.
pub parse_lem :
    {Body : Type 0} (to_text : PackageUrl → String) (from_json : Body → Option (List Component))
    (body : Body) (read : List Component)
    → from_json body ≡ some read
    → (out : List NormalizedComponent) × (parse to_text from_json
          (object (some supported_spec_version) body)
        ≡ normalized out)
      × AreDistinct out
      × ((purl_name version : String)
          → first_with purl_name version out ≡ first_normalized to_text purl_name version read)
unfolding parse after_reading is_supported
parse_lem to_text from_json body read e = (
  add_components to_text [] read,
  rw e refl,
  AreDistinct-add_components to_text [] read tt,
  λ purl_name version. first_with-add_components purl_name version to_text [] read,
)
