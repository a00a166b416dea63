-- ===== src/Sbom/Tests.antt =====
-- A document with a component that occurs twice.
use Prim.Native.String.{◌++◌}
use imbi_api.Prelude.{◌≡◌, refl, String, Option, none, some, List, [], ◌∷◌}
use imbi_api.Sbom.Text.{license}
use imbi_api.Sbom.Components.{
  PackageUrl, Component, NormalizedComponent, parse, object, normalized, supported_spec_version,
}
use imbi_api.Sbom.Keys.{AreDistinct, first_with, first_normalized, parse_lem}

abbrev requests : Component
requests = record {
  name = "requests";
  purl = some (record {
    type = "pypi";
    namespace = none;
    name = "requests";
    version = some "2.0";
    qualifiers = [];
    subpath = none;
  });
  version = none;
  cpe = some "cpe:2.3:a:python:requests:2.0:*";
  licenses = license (some "Apache-2.0") none ∷ [];
  supplier = none;
  hashes = [];
  description = none;
  scope = some "required";
  properties = ("cdx:pyproject:group", "dev") ∷ [];
}

abbrev to_text : PackageUrl → String
to_text purl = "pkg:" ++ (purl.type ++ ("/" ++ purl.name))

abbrev twice : List Component
twice = record requests { name = "again" } ∷ requests ∷ []

abbrev read_all : List Component → Option (List Component)
read_all body = some body

parse_lem_example :
    (out : List NormalizedComponent) × (parse to_text read_all
        (object (some supported_spec_version) twice)
      ≡ normalized out)
    × AreDistinct out
    × ((purl_name version : String)
        → first_with purl_name version out ≡ first_normalized to_text purl_name version twice)
parse_lem_example = parse_lem to_text read_all twice twice refl
