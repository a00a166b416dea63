-- ===== src/Blueprint/Attributes.antt =====
-- `resolve` of blueprint_attributes.py: the attributes that projects can be filtered by.
use imbi_api.Prelude.{
  ◌≡◌, refl, arith, eq_iff, String, Bool, true, false, ◌&&◌, ◌||◌, Option, none, some, List, [],
  ◌∷◌, ◌==◌, if◌then◌else◌, Entries, member, insert,
}
use imbi_api.Blueprint.Schema.{
  Value, Property, Blueprint, any_of, is_empty, has_key, defines, applies, applicable_blueprints,
}

pub record FilterableAttribute : Type 0 where
  pub field : String
  pub type : Option String
  pub format : Option String
  pub enum : Option (List Value)

unfoldable pub attribute_of : String → Property → FilterableAttribute
attribute_of name p = record { field = name; type = p.type; format = p.format; enum = p.enum }

-- out[name] = ... for each property.
unfoldable pub add_attributes :
    Entries Property → Entries FilterableAttribute → Entries FilterableAttribute
add_attributes [] out = out
add_attributes ((name, p) ∷ others) out =
    add_attributes others (insert name (attribute_of name p) out)

-- Without a type, every blueprint is considered.
unfoldable pub for_type : Option String → Blueprint → Bool
for_type none bp = true
for_type (some slug) bp = is_empty bp.project_types || member slug bp.project_types

unfoldable pub considered : Option String → Blueprint → Bool
considered type_slug bp = bp.is_node && for_type type_slug bp

unfoldable pub resolve_into :
    List Blueprint → Option String → Entries FilterableAttribute → Entries FilterableAttribute
resolve_into [] type_slug out = out
resolve_into (bp ∷ blueprints) type_slug out =
    resolve_into blueprints type_slug
      (if considered type_slug bp then add_attributes bp.properties out else out)

unfoldable pub resolve : List Blueprint → Option String → Entries FilterableAttribute
resolve blueprints type_slug = resolve_into blueprints type_slug []

has_key-insert :
    {A : Type 0} (name key : String) (value : A) (d : Entries A)
    → has_key name (insert key value d) ≡ (key == name || has_key name d)
unfolding has_key insert
has_key-insert name key value [] = refl
has_key-insert name key value ((k, v) ∷ d) =
    let ih = has_key-insert name key value d in
    ground (arith, ih, eq_iff k key, eq_iff k name, eq_iff key name)

has_key-add_attributes :
    (name : String) (ps : Entries Property) (out : Entries FilterableAttribute)
    → has_key name (add_attributes ps out) ≡ (has_key name ps || has_key name out)
unfolding add_attributes has_key
has_key-add_attributes name [] out = refl
has_key-add_attributes name ((key, p) ∷ ps) out =
    let ih = has_key-add_attributes name ps (insert key (attribute_of key p) out) in
    let one = has_key-insert name key (attribute_of key p) out in ground (arith, ih, one)

any_of_one : (slug : String) (wanted : List String) → any_of wanted (slug ∷ []) ≡ member slug wanted
unfolding any_of
any_of_one slug [] = refl
any_of_one slug (t ∷ wanted) =
    let ih = any_of_one slug wanted in ground (arith, ih, eq_iff slug t, eq_iff t slug)

-- A blueprint without properties defines nothing.
empty_defines :
    (name : String) (ps : Entries Property) → is_empty ps ≡ true → has_key name ps ≡ false
unfolding is_empty has_key
empty_defines name [] e = refl
empty_defines name (p ∷ ps) e = cc

resolve_into-defines :
    (blueprints : List Blueprint) (slug name : String) (out : Entries FilterableAttribute)
    → has_key name (resolve_into blueprints (some slug) out)
      ≡ (has_key name out || defines name (applicable_blueprints blueprints (slug ∷ [])))
unfolding resolve_into applicable_blueprints defines applies considered for_type
resolve_into-defines [] slug name out = ground arith
resolve_into-defines (bp ∷ blueprints) slug name out =
    let next = if considered (some slug) bp then add_attributes bp.properties out else out in
    let ih = resolve_into-defines blueprints slug name next in
    let types = any_of_one slug bp.project_types in
    let add = has_key-add_attributes name bp.properties out in
    let bare = empty_defines name bp.properties in ground (arith, ih, types, add, bare)

-- The attributes that are advertised for a project type are the properties of the blueprints that
-- the compliance check applies to a project of that type alone.
pub resolve-applicable_blueprints :
    (blueprints : List Blueprint) (slug name : String)
    → has_key name (resolve blueprints (some slug))
      ≡ defines name (applicable_blueprints blueprints (slug ∷ []))
unfolding resolve has_key
resolve-applicable_blueprints blueprints slug name = resolve_into-defines blueprints slug name []
