-- ===== src/Patch/Readonly.antt =====
-- What the guard of imbi_api/patch.py protects.
use Prim.Native.Char.{code}
use Prim.Native.String.{◌++◌}
use imbi_api.Prelude.{
  ◌≡◌, ◌≢◌, String, Bool, true, false, not, ◌&&◌, ◌||◌, Option, none, some, List, [], ◌∷◌, map, eqb,
  All, lookup, Entries,
}
use imbi_api.Patch.{is_under, Field, Patched, PatchOperation, operation_fields, patched}

-- A path that changes neither the whole document nor what stands under a path.
abbrev pub Spares : String → String → Type 0
Spares ro path = (path ≢ "") × (is_under path ro ≡ false)

abbrev pub SparesFrom : String → Option String → Type 0
SparesFrom ro none = Unit
SparesFrom ro (some path) = Spares ro path

-- No "~" and no "/": a member's name that JSON Pointer writes as it is.
abbrev pub is_plain : String → Bool
is_plain String.[] = true
is_plain (String.◌∷◌ c rest) = not (eqb (code c) 126 || eqb (code c) 47) && is_plain rest

module _ {Json : Type 0} where
  -- Neither path of the operation is the root or under a path.
  abbrev pub LeavesAlone : String → PatchOperation Json → Type 0
  LeavesAlone ro o = Spares ro o.path × SparesFrom ro o.from_

  module _ (jsonpatch : Entries Json → List (Entries (Field Json)) → Patched Json) where
    -- RFC 6902 with RFC 6901: operations whose paths are neither the root nor under a member leave
    -- that member, where its name needs no escapes.
    abbrev pub IsLocal : Type 0
    IsLocal =
        (document result : Entries Json) (operations : List (PatchOperation Json)) (name : String)
        → jsonpatch document (map operation_fields operations) ≡ patched result
        → is_plain name ≡ true
        → All (LeavesAlone ("/" ++ name)) operations
        → lookup name result ≡ lookup name document
