-- ===== src/Patch.antt =====
-- imbi_api/patch.py: JSON Patch behind a guard on read-only paths. The library that applies a patch
-- is an argument, and so is Python's `repr` of a text; JSON values are of any type.
pub mod Readonly
mod Tests
use Prim.Native.String.{◌++◌}
use imbi_api.Prelude.{
  ◌≡◌, ◌≢◌, ◌↔◌, refl, String, Bool, true, false, ◌||◌, Option, none, some, List, [], ◌∷◌, map,
  ◌==◌, starts_with, if◌then◌else◌, any, member, All, lookup, Entries, arith, eq_iff, Bool-cases,
  inl, inr, ◌⊎◌, subst, sym, ap, ◌∙◌,
}
use imbi_api.Prelude.Replies.{Reply, ok, refuse, break}

-- READONLY_PATHS
abbrev pub readonly_default : List String
readonly_default = "/created_at" ∷ "/updated_at" ∷ "/relationships" ∷ "/id" ∷ []

-- check_path == ro or check_path.startswith(f'{ro}/')
abbrev pub is_under : String → String → Bool
is_under path ro = path == ro || starts_with path (ro ++ "/")

-- The details of the refusals.
abbrev pub root_detail : String
root_detail = "Root path cannot be patched"

abbrev pub readonly_detail : String → String
readonly_detail shown = "Path " ++ (shown ++ " is read-only and cannot be patched")

module _ (repr : String → String) (readonly : List String) where
  unfoldable pub path_error : String → Option String
  path_error path =
      if path == ""
      then some root_detail
      else if any (is_under path) readonly
      then some (readonly_detail (repr path))
      else none

  unfoldable pub from_error : Option String → Option String
  from_error none = none
  from_error (some path) = path_error path

-- The first of two errors.
unfoldable pub or_else : Option String → Option String → Option String
or_else none later = later
or_else (some e) later = some e

pub data Field (Json : Type 0) : Type 0 where
  text : String → Field Json
  json : Json → Field Json

-- What the library makes of a patch: a document, a value that is no object, or an exception, which
-- is one of those that the code catches or another, as a JsonPointerException is.
pub data Patched (Json : Type 0) : Type 0 where
  patched : Entries Json → Patched Json
  no_object : Patched Json
  test_failed conflicted : String → Patched Json
  uncaught : Patched Json

-- `value` is `none` where the request does not set it.
pub record PatchOperation (Json : Type 0) : Type 0 where
  pub op : String
  pub path : String
  pub value : Option Json
  pub from_ : Option String

module _ {Json : Type 0} where
  unfoldable pub operation_error :
      (String → String) → List String → PatchOperation Json → Option String
  operation_error repr readonly o =
      or_else (path_error repr readonly o.path) (from_error repr readonly o.from_)

  unfoldable pub first_error :
      (String → String) → List String → List (PatchOperation Json) → Option String
  first_error repr readonly [] = none
  first_error repr readonly (o ∷ operations) =
      or_else (operation_error repr readonly o) (first_error repr readonly operations)

  unfoldable pub with_from : Option String → Entries (Field Json)
  with_from none = []
  with_from (some path) = ("from", text path) ∷ []

  unfoldable pub with_value : Option Json → Entries (Field Json) → Entries (Field Json)
  with_value none others = others
  with_value (some v) others = ("value", json v) ∷ others

  unfoldable pub operation_fields : PatchOperation Json → Entries (Field Json)
  operation_fields o =
      ("op", text o.op) ∷ ("path", text o.path) ∷ with_value o.value (with_from o.from_)

  unfoldable pub patched_reply : Patched Json → Reply (Entries Json)
  patched_reply (patched document) = ok document
  patched_reply no_object = refuse 400 "Patch result must be a JSON object"
  patched_reply (test_failed e) = refuse 422 ("Patch test operation failed: " ++ e)
  patched_reply (conflicted e) = refuse 400 ("Invalid patch: " ++ e)
  patched_reply uncaught = break

  module _ (jsonpatch : Entries Json → List (Entries (Field Json)) → Patched Json) where
    unfoldable pub after_guard :
        Option String → Entries Json → List (PatchOperation Json) → Reply (Entries Json)
    after_guard (some detail) document operations = refuse 400 detail
    after_guard none document operations =
        patched_reply (jsonpatch document (map operation_fields operations))

    unfoldable pub apply_patch :
        (String → String)
        → Entries Json
        → List (PatchOperation Json)
        → List String
        → Reply (Entries Json)
    apply_patch repr document operations readonly =
        after_guard (first_error repr readonly operations) document operations
