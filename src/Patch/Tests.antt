-- ===== src/Patch/Tests.antt =====
-- A patch that adds a member, with a library that takes each operation with a value as an `add`.
use Prim.Native.String.{◌++◌, ◌∷◌, []}
use imbi_api.Prelude.{
  String, Option, none, some, List, ◌==◌, ◌∷◌, [], if◌then◌else◌, lookup, insert, Entries,
}
use imbi_api.Patch.{
  PatchOperation, Field, text, json, Patched, patched, apply_patch, path_error, from_error, or_else,
  operation_error, operation_fields, with_value, with_from, first_error, patched_reply, after_guard,
}

-- Opens the guard.
guard_open : Unit {0}
unfolding path_error from_error or_else operation_error first_error patched_reply after_guard
    apply_patch operation_fields with_value with_from insert lookup
guard_open = tt

-- The member that a path names.
put : String → String → Entries String → Entries String
put String.[] value document = document
put (String.◌∷◌ c key) value document =
    if (String.◌∷◌ c key) == ("/" ++ key) then insert key value document else document

add : Option (Field String) → Option (Field String) → Entries String → Entries String
add (some (text path)) (some (json value)) document = put path value document
add _ _ document = document

add_all : Entries String → List (Entries (Field String)) → Entries String
add_all document [] = document
add_all document (fields ∷ others) =
    add_all (add (lookup "path" fields) (lookup "value" fields) document) others

abbrev adding : Entries String → List (Entries (Field String)) → Patched String
adding document operations = patched (add_all document operations)

abbrev team : Entries String
team = ("id", "t1") ∷ ("name", "ops") ∷ []

abbrev set_name : PatchOperation String
set_name = record { op = "add"; path = "/name"; value = some "dev"; from_ = none }

abbrev quoted : String → String
quoted t = "'" ++ (t ++ "'")

abbrev renamed : Entries String
renamed = ("id", "t1") ∷ ("name", "dev") ∷ []
