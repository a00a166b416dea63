-- ===== src/Sbom/Components.antt =====
-- `parse` and `_normalize` of imbi_api/sbom.py. The CycloneDX and package-URL libraries are
-- arguments: a component is what they make of the document.
use imbi_api.Prelude.{
  String, Bool, false, ◌&&◌, Option, none, some, List, [], ◌∷◌, ◌++◌, ◌==◌, if◌then◌else◌, any,
  Entries,
}
use imbi_api.Sbom.Text.{
  strip_cpe_version, normalize_scope, normalize_license, collect_groups, License, truthy_text,
  or_text,
}

-- The library's package URL.
pub record PackageUrl : Type 0 where
  pub type : String
  pub namespace : Option String
  pub name : String
  pub version : Option String
  pub qualifiers : Entries String
  pub subpath : Option String

pub record Component : Type 0 where
  pub name : String
  pub purl : Option PackageUrl
  pub version : Option String
  pub cpe : Option String
  pub licenses : List License
  pub supplier : Option String
  pub hashes : Entries String
  pub description : Option String
  pub scope : Option String
  pub properties : List (String × String)

pub record NormalizedComponent : Type 0 where
  pub purl_name : String
  pub name : String
  pub ecosystem : String
  pub version : String
  pub license : Option String
  pub supplier : Option String
  pub hashes : Entries String
  pub description : Option String
  pub scope : Option String
  pub groups : List String
  -- A kind of identifier with its value.
  pub identifiers : Entries String

unfoldable pub cpe_identifiers : Option String → Entries String
cpe_identifiers none = []
cpe_identifiers (some cpe) = ("cpe", strip_cpe_version cpe) ∷ []

-- `to_text` is the library's str(purl).
module _ (to_text : PackageUrl → String) where
  unfoldable pub strip_purl_version : PackageUrl → String
  strip_purl_version purl = to_text (record purl { version = none })

  -- With a purl and a version.
  unfoldable pub with_version : Component → PackageUrl → Option String → Option NormalizedComponent
  with_version component purl none = none
  with_version component purl (some version) = some (record {
    purl_name = strip_purl_version purl;
    name = component.name;
    ecosystem = purl.type;
    version = version;
    license = normalize_license component.licenses;
    supplier = component.supplier;
    hashes = component.hashes;
    description = component.description;
    scope = normalize_scope component.scope;
    groups = collect_groups component.properties;
    identifiers = ("purl", strip_purl_version purl) ∷ cpe_identifiers (truthy_text component.cpe);
  })

  unfoldable pub with_purl : Component → Option PackageUrl → Option NormalizedComponent
  with_purl component none = none
  with_purl component (some purl) =
      with_version component purl
        (or_text (truthy_text component.version) (truthy_text purl.version))

  unfoldable pub normalize : Component → Option NormalizedComponent
  normalize component = with_purl component component.purl

-- The key (purl_name, version) of a component.
abbrev pub has_key : String → String → NormalizedComponent → Bool
has_key purl_name version c = c.purl_name == purl_name && c.version == version

unfoldable pub add_component :
    List NormalizedComponent → Option NormalizedComponent → List NormalizedComponent
add_component seen none = seen
add_component seen (some c) =
    if any (has_key c.purl_name c.version) seen then seen else seen ++ c ∷ []

unfoldable pub add_components :
    (PackageUrl → String) → List NormalizedComponent → List Component → List NormalizedComponent
add_components to_text seen [] = seen
add_components to_text seen (component ∷ others) =
    add_components to_text (add_component seen (normalize to_text component)) others

-- The body of a request: no JSON object, or one with its specVersion.
pub data Payload (Body : Type 0) : Type 0 where
  no_object : Payload Body
  object : Option String → Body → Payload Body

pub data Parsed : Type 0 where
  malformed : Parsed
  unsupported : Option String → Parsed
  normalized : List NormalizedComponent → Parsed

-- SUPPORTED_SPEC_VERSION
abbrev pub supported_spec_version : String
supported_spec_version = "1.7"

unfoldable pub is_supported : Option String → Bool
is_supported none = false
is_supported (some version) = version == supported_spec_version

unfoldable pub after_reading : (PackageUrl → String) → Option (List Component) → Parsed
after_reading to_text none = malformed
after_reading to_text (some read) = normalized (add_components to_text [] read)

-- `from_json` is the library's reader with the iteration over `bom.components`, a sorted set: the
-- components come in the library's order, not the document's. `none` is one of the exceptions that
-- the code catches.
unfoldable pub parse :
    {Body : Type 0}
    → (PackageUrl → String)
    → (Body → Option (List Component))
    → Payload Body
    → Parsed
parse to_text from_json no_object = malformed
parse to_text from_json (object spec_version body) =
    if is_supported spec_version
    then after_reading to_text (from_json body)
    else unsupported spec_version
