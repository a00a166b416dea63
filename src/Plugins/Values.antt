-- ===== src/Plugins/Values.antt =====
-- Values of the graph and of JSON, as plugins/__init__.py reads them. A number is an integer.
use imbi_api.Prelude.{
  zero, String, Bool, true, false, not, Option, none, some, [], ◌∷◌, ◌==◌, Entries, update,
}
use imbi_api.Prelude.Int.{ℤ, pos}

mutual
  -- The members of an object and the elements of an array are lists of their own.
  pub data Members : Type 0 where
    no_members : Members
    key_value : String → Value → Members → Members

  pub data Value : Type 0 where
    null : Value
    text : String → Value
    number : ℤ → Value
    boolean : Bool → Value
    object : Members → Value
    array : Elements → Value

  pub data Elements : Type 0 where
    no_elements : Elements
    element : Value → Elements → Elements

-- The pairs of an object, in their order.
unfoldable pub pairs : Members → Entries Value
pairs no_members = []
pairs (key_value name value others) = (name, value) ∷ pairs others

-- bool(value)
unfoldable pub is_truthy : Value → Bool
is_truthy null = false
is_truthy (boolean b) = b
is_truthy (number (pos zero)) = false
is_truthy (number _) = true
is_truthy (text t) = not (t == "")
is_truthy (array no_elements) = false
is_truthy (array _) = true
is_truthy (object no_members) = false
is_truthy (object _) = true

-- The value as a dictionary, if it is an object; a key that is repeated has its last value.
unfoldable pub as_dict : Value → Option (Entries Value)
as_dict (object members) = some (update [] (pairs members))
as_dict _ = none

unfoldable pub or_empty : Option (Entries Value) → Entries Value
or_empty none = []
or_empty (some d) = d

-- The dictionary under a key, empty where there is none.
unfoldable pub dict_of : Option Value → Entries Value
dict_of none = []
dict_of (some v) = or_empty (as_dict v)

-- graph.parse_agtype, and json.loads with `none` for a JSONDecodeError.
pub record Decoders : Type 0 where
  pub parse_agtype : Value → Value
  pub loads : String → Option Value

module _ (c : Decoders) where
  unfoldable pub decoded : Value → Entries Value
  decoded (text t) = dict_of (c.loads t)
  decoded v = or_empty (as_dict v)

  -- A key that is missing reads as None.
  unfoldable pub parse_options : Option Value → Entries Value
  parse_options none = []
  parse_options (some null) = []
  parse_options (some raw) = decoded (c.parse_agtype raw)
