-- ===== src/Blueprint/Schema.antt =====
-- Values of properties, and the parts of a blueprint that the code reads. A number is an integer.
use Prim.Native.Char.{Char, code, char}
use Prim.Native.String.{[], ◌∷◌}
use imbi_api.Prelude.{
  ℕ, eqb, leb, ltb, String, Bool, true, false, not, ◌&&◌, ◌||◌, Option, none, some, List, [], ◌∷◌,
  ◌==◌, if◌then◌else◌, Entries, member,
}
use imbi_api.Prelude.Int.{ℤ, pos, negsuc}

-- What AGE holds for a property; `other` is a list or an object, in its text.
pub data Value : Type 0 where
  null : Value
  text other : String → Value
  number : ℤ → Value
  boolean : Bool → Value

-- a < b
unfoldable pub less : ℤ → ℤ → Bool
less (pos a) (pos b) = ltb a b
less (pos a) (negsuc b) = false
less (negsuc a) (pos b) = true
less (negsuc a) (negsuc b) = ltb b a

unfoldable pub same_number : ℤ → ℤ → Bool
same_number (pos a) (pos b) = eqb a b
same_number (negsuc a) (negsuc b) = eqb a b
same_number _ _ = false

-- Python's bool is a number.
unfoldable pub as_number : Value → Option ℤ
as_number (number n) = some n
as_number (boolean true) = some (pos 1)
as_number (boolean false) = some (pos 0)
as_number _ = none

unfoldable pub same_numbers : Option ℤ → Option ℤ → Bool
same_numbers (some a) (some b) = same_number a b
same_numbers _ _ = false

-- a == b
unfoldable pub same_value : Value → Value → Bool
same_value null null = true
same_value (text a) (text b) = a == b
same_value (other a) (other b) = a == b
same_value a b = same_numbers (as_number a) (as_number b)

unfoldable pub is_in : Value → List Value → Bool
is_in v [] = false
is_in v (w ∷ ws) = same_value v w || is_in v ws

pub record Property : Type 0 where
  pub type : Option String
  pub format : Option String
  pub default : Option Value
  pub enum : Option (List Value)
  pub minimum : Option ℤ
  pub maximum : Option ℤ
  -- The x-ui extra's `required is True`.
  pub ui_required : Bool

pub record Blueprint : Type 0 where
  pub slug : String
  pub is_node : Bool
  -- filter.project_type; empty where there is no filter.
  pub project_types : List String
  pub required : List String
  pub properties : Entries Property

unfoldable pub is_null : Value → Bool
is_null null = true
is_null _ = false

-- value is _SENTINEL or value is None or value == ''
unfoldable pub is_missing : Option Value → Bool
is_missing none = true
is_missing (some null) = true
is_missing (some (text t)) = t == ""
is_missing (some _) = false

-- `default is not None`
unfoldable pub has_default : Property → Bool
has_default p = elim p.default [ none ↦ false | some v ↦ not (is_null v) ]

unfoldable pub is_between : ℕ → ℕ → Char → Bool
is_between low high c = leb low (code c) && leb (code c) high

-- [A-Za-z_]
unfoldable pub is_first : Char → Bool
is_first c = is_between 65 90 c || is_between 97 122 c || eqb (code c) 95

-- [A-Za-z0-9_]
unfoldable pub is_word : Char → Bool
is_word c = is_first c || is_between 48 57 c

-- [A-Za-z0-9_]*$, where Python's `$` also stands before a last newline.
unfoldable pub ends : Char → String → Bool
ends c [] = eqb (code c) 10
ends c (d ∷ rest) = false

unfoldable pub all_word : String → Bool
all_word [] = true
all_word (c ∷ rest) = let later = all_word rest in if is_word c then later else ends c rest

-- _SAFE_PROP_RE.match(name)
unfoldable pub is_safe : String → Bool
is_safe [] = false
is_safe (c ∷ rest) = is_first c && all_word rest

unfoldable pub any_of : List String → List String → Bool
any_of [] types = false
any_of (t ∷ wanted) types = member t types || any_of wanted types

unfoldable pub is_empty : {A : Type 0} → List A → Bool
is_empty [] = true
is_empty (x ∷ xs) = false

-- Whether a blueprint applies to a project of these types, and has properties.
unfoldable pub applies : List String → Blueprint → Bool
applies types bp =
    bp.is_node
    && (is_empty bp.project_types || any_of bp.project_types types)
    && not (is_empty bp.properties)

unfoldable pub applicable_blueprints : List Blueprint → List String → List Blueprint
applicable_blueprints [] types = []
applicable_blueprints (bp ∷ blueprints) types =
    let later = applicable_blueprints blueprints types in
    if applies types bp then bp ∷ later else later

-- Whether a blueprint of a list defines a property.
unfoldable pub has_key : {A : Type 0} → String → Entries A → Bool
has_key name [] = false
has_key name ((key, value) ∷ others) = key == name || has_key name others

unfoldable pub defines : String → List Blueprint → Bool
defines name [] = false
defines name (bp ∷ blueprints) = has_key name bp.properties || defines name blueprints

unfoldable pub node_blueprints : List Blueprint → List Blueprint
node_blueprints [] = []
node_blueprints (bp ∷ blueprints) =
    let later = node_blueprints blueprints in if bp.is_node then bp ∷ later else later

-- The separator of a remediation's id.
abbrev pub colon : Char
colon = char 58 tt

abbrev pub is_colon : Char → Bool
is_colon c = eqb (code c) 58
