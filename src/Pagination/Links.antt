-- ===== src/Pagination/Links.antt =====
-- The Link header of imbi_api/endpoints/_pagination.py. `urlencode` is an argument.
use Prim.Native.String.{◌++◌}
use imbi_api.Prelude.{
  ◌≡◌, String, false, Option, none, some, List, [], ◌∷◌, ◌==◌, eq_iff, if◌then◌else◌, refl, arith,
  Entries, lookup, insert, lookup-insert, Bool-cases, inl, inr,
}

-- {k: v for k, v in ... if k != 'cursor'}: of two values of a name the later one stays.
unfoldable pub add_param : String → String → Entries String → Entries String
add_param name value params = if name == "cursor" then params else insert name value params

unfoldable pub params_of : Entries String → List (String × String) → Entries String
params_of params [] = params
params_of params ((name, value) ∷ items) = params_of (add_param name value params) items

unfoldable pub base_params : List (String × String) → Entries String
base_params items = params_of [] items

unfoldable pub next_params : List (String × String) → String → Entries String
next_params items cursor = insert "cursor" cursor (base_params items)

module _ (urlencode : Entries String → String) where
  unfoldable pub url_with : String → Entries String → String
  url_with target [] = target
  url_with target (p ∷ params) = target ++ ("?" ++ urlencode (p ∷ params))

  unfoldable pub build_link_header : String → List (String × String) → Option String → String
  build_link_header target items none =
      "<" ++ (url_with target (base_params items) ++ ">; rel=\"first\"")
  build_link_header target items (some cursor) =
      "<"
      ++ (url_with target (base_params items)
          ++ (">; rel=\"first\""
              ++ (", <" ++ (url_with target (next_params items cursor) ++ ">; rel=\"next\""))))

-- The last value that a query gives a name.
abbrev pub last_value : String → List (String × String) → Option String → Option String
last_value name [] earlier = earlier
last_value name ((n, value) ∷ items) earlier =
    last_value name items (if n == name then some value else earlier)

lookup-add_param :
    (read name value : String) (params : Entries String)
    → ("cursor" == read) ≡ false
    → lookup read (add_param name value params)
      ≡ (if name == read then some value else lookup read params)
unfolding add_param
lookup-add_param read name value params other = ground (
  arith,
  other,
  lookup-insert name read value params,
  eq_iff name read,
  eq_iff name "cursor",
  eq_iff "cursor" read,
)

lookup-params_of :
    (read : String) (params : Entries String) (items : List (String × String))
    → ("cursor" == read) ≡ false
    → lookup read (params_of params items) ≡ last_value read items (lookup read params)
unfolding params_of
lookup-params_of read params [] other = refl
lookup-params_of read params ((name, value) ∷ items) other =
    rw
      (
        lookup-params_of read (add_param name value params) items other,
        lookup-add_param read name value params other,
      )
      refl

-- The parameters of the next page's link are the cursor of that page, and for every other name the
-- last value that the query gives it.
pub lookup-next_params :
    (read cursor : String) (items : List (String × String))
    → lookup read (next_params items cursor)
      ≡ (if "cursor" == read then some cursor else last_value read items none)
unfolding next_params base_params lookup
lookup-next_params read cursor items =
    rw (lookup-insert "cursor" read cursor (params_of [] items))
      (elim (Bool-cases ("cursor" == read)) [
        | inl same ↦ rw same refl
        | inr other ↦ rw (other, lookup-params_of read [] items other) refl
      ])
