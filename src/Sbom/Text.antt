-- ===== src/Sbom/Text.antt =====
-- The texts of a component: its CPE, scope, licence and groups.
use Prim.Native.Char.{Char, char}
use Prim.Native.String.{◌∷◌, ◌++◌, [], compare}
use Prim.Native.Nat.{Ordering}
use imbi_api.Prelude.{
  ◌≡◌, refl, ap, ◌∙◌, String, Bool, true, false, ◌&&◌, ◌||◌, not, Option, none, some, List, [], ◌∷◌,
  ◌==◌, eq_iff, starts_with, if◌then◌else◌, All, member, any, arith, Bool-cases, inl, inr, subst,
}
use imbi_api.Prelude.Splits.{
  split_all, join, split_once, first_of, add_char, HasNone, All-split_all, split_all-join,
}

abbrev colon : Char
colon = char 58 tt

abbrev is_colon : Char → Bool
is_colon c = starts_with (c ∷ []) ":"

-- The parts of a CPE 2.3 name with the version masked; `none` where it is no such name.
unfoldable pub masked : List String → Option (List String)
masked (cpe ∷ (number ∷ (part ∷ (vendor ∷ (product ∷ (version ∷ rest)))))) =
    if cpe == "cpe" && number == "2.3"
    then some (cpe ∷ (number ∷ (part ∷ (vendor ∷ (product ∷ ("*" ∷ rest))))))
    else none
masked _ = none

unfoldable pub joined_or : String → Option (List String) → String
joined_or cpe none = cpe
joined_or cpe (some parts) = join colon parts

unfoldable pub strip_cpe_version : String → String
strip_cpe_version cpe = joined_or cpe (masked (split_all is_colon cpe))

guarded_some :
    (b : Bool) (x y : List String) → (if b then some x else none) ≡ some y → (b ≡ true) × (x ≡ y)
guarded_some true x y e = (refl, cc)
guarded_some false x y e = cc

star : HasNone is_colon "*"
unfolding split_once first_of add_char
star = refl

-- Masking gives a name with parts of its own, and masking again changes nothing.
masked_lem :
    (parts out : List String)
    → All (HasNone is_colon) parts
    → masked parts ≡ some out
    → (masked out ≡ some out) × ((split_all is_colon (join colon out)) ≡ out)
unfolding masked
masked_lem [] out h e = cc
masked_lem (a ∷ []) out h e = cc
masked_lem (a ∷ (b ∷ [])) out h e = cc
masked_lem (a ∷ (b ∷ (c ∷ []))) out h e = cc
masked_lem (a ∷ (b ∷ (c ∷ (d ∷ [])))) out h e = cc
masked_lem (a ∷ (b ∷ (c ∷ (d ∷ (f ∷ []))))) out h e = cc
masked_lem (a ∷ (b ∷ (c ∷ (d ∷ (f ∷ (v ∷ rest)))))) out h e =
    let (named, made) = guarded_some (a == "cpe" && b == "2.3") _ out e in
    subst (λ o. (masked o ≡ some o) × (split_all is_colon (join colon o) ≡ o)) made
      (
        rw named refl,
        split_all-join is_colon colon refl a (b ∷ (c ∷ (d ∷ (f ∷ ("*" ∷ rest)))))
            (h.0, (h.1.0, (h.1.1.0, (h.1.1.1.0, (h.1.1.1.1.0, (star, h.1.1.1.1.1.1)))))),
      )

joined_or_twice :
    (cpe : String) (m : Option (List String))
    → masked (split_all is_colon cpe) ≡ m
    → strip_cpe_version (joined_or cpe m) ≡ joined_or cpe m
unfolding strip_cpe_version joined_or
joined_or_twice cpe none e = rw e refl
joined_or_twice cpe (some parts) e =
    let (again, back) = masked_lem (split_all is_colon cpe) parts (All-split_all is_colon cpe) e in
    rw (back, again) refl

-- Stripping the version of a CPE is the same once and twice, whatever the text is.
pub strip_cpe_version_idempotent :
    (cpe : String) → strip_cpe_version (strip_cpe_version cpe) ≡ strip_cpe_version cpe
unfolding strip_cpe_version
strip_cpe_version_idempotent cpe = joined_or_twice cpe (masked (split_all is_colon cpe)) refl

-- A scope of CycloneDX 1.7, and none for anything else.
unfoldable pub normalize_scope : Option String → Option String
normalize_scope none = none
normalize_scope (some value) =
    if value == "required"
    then some "required"
    else if value == "optional"
    then some "optional"
    else if value == "excluded"
    then some "excluded"
    else none

-- The records of a component's licences.
pub data License : Type 0 where
  expression : String → License
  license : Option String → Option String → License

unfoldable pub truthy_text : Option String → Option String
truthy_text none = none
truthy_text (some t) = if t == "" then none else some t

unfoldable pub or_text : Option String → Option String → Option String
or_text none other = other
or_text (some t) other = some t

unfoldable pub license_text : License → Option String
license_text (expression value) = some value
license_text (license id name) = or_text (truthy_text id) (truthy_text name)

unfoldable pub with_text : Option String → List String → List String
with_text none texts = texts
with_text (some t) texts = t ∷ texts

unfoldable pub license_texts : List License → List String
license_texts [] = []
license_texts (l ∷ licenses) = with_text (license_text l) (license_texts licenses)

unfoldable pub join_and : String → List String → String
join_and first [] = first
join_and first (next ∷ texts) = first ++ (" AND " ++ join_and next texts)

unfoldable pub joined_licenses : List String → Option String
joined_licenses [] = none
joined_licenses (first ∷ texts) = some (join_and first texts)

unfoldable pub normalize_license : List License → Option String
normalize_license licenses = joined_licenses (license_texts licenses)

-- A name among sorted names, once.
abbrev is_before : String → String → Bool
is_before s t = elim (compare s t) [ Ordering.lt ↦ true | _ ↦ false ]

unfoldable pub insert_name : String → List String → List String
insert_name x [] = x ∷ []
insert_name x (y ∷ ys) =
    let later = insert_name x ys in
    if x == y then y ∷ ys else if is_before x y then x ∷ (y ∷ ys) else y ∷ later

-- _GROUP_PROPERTY_NAMES
abbrev pub group_property_names : List String
group_property_names = "cdx:pyproject:group" ∷ []

unfoldable pub is_group : String → String → Bool
is_group name value = member name group_property_names && not (value == "")

-- A property is a name with a value; a value that is missing reads as the empty text.
unfoldable pub collect_groups : List (String × String) → List String
collect_groups [] = []
collect_groups ((name, value) ∷ properties) =
    let groups = collect_groups properties in
    if is_group name value then insert_name value groups else groups

member-insert_name :
    (p x : String) (names : List String)
    → member p (insert_name x names) ≡ (x == p || member p names)
unfolding insert_name
member-insert_name p x [] = ground arith
member-insert_name p x (y ∷ names) = elim (Bool-cases (x == y)) [
  | inl same ↦ rw same (ground (arith, same, eq_iff x y, λ (e : x ≡ y). ap (λ z. z == p) e))
  | inr other ↦ elim (Bool-cases (is_before x y)) [
    | inl first ↦ rw (other, first) refl
    | inr after ↦ rw (other, after) (ground (arith, member-insert_name p x names))
  ]
]

-- The groups are the values that are not empty of the properties that name a group.
pub member-collect_groups :
    (p : String) (properties : List (String × String))
    → member p (collect_groups properties)
      ≡ any (λ prop. is_group prop.0 prop.1 && prop.1 == p) properties
unfolding collect_groups
member-collect_groups p [] = refl
member-collect_groups p ((name, value) ∷ properties) = elim (Bool-cases (is_group name value)) [
  | inl group ↦ rw group (
      member-insert_name p value (collect_groups properties)
      ∙ ap (λ b. value == p || b) (member-collect_groups p properties))
  | inr other ↦ rw other (member-collect_groups p properties)
]
