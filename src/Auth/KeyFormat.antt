-- ===== src/Auth/KeyFormat.antt =====
-- The format ik_<id>_<secret> of an API key: `key.split('_', 2)` in auth/permissions.py.
use Prim.Native.Char.{Char, char}
use Prim.Native.String.{◌∷◌, ◌++◌, []}
use imbi_api.Prelude.{◌≡◌, String, Bool, Option, none, some, ◌==◌, starts_with, if◌then◌else◌, refl}
use imbi_api.Prelude.Splits.{split_once, first_of, add_char, split_once-append}

abbrev underscore : Char
underscore = char 95 tt

abbrev pub is_underscore : Char → Bool
is_underscore c = starts_with (c ∷ []) "_"

unfoldable pub after_prefix : String → Option (String × String) → Option (String × String × String)
after_prefix prefix none = none
after_prefix prefix (some (id, secret)) = some (prefix, id, secret)

unfoldable pub second_split : Option (String × String) → Option (String × String × String)
second_split none = none
second_split (some (prefix, rest)) = after_prefix prefix (split_once is_underscore rest)

-- The id and the secret, if there are three parts and the first one is "ik".
unfoldable pub checked_parts : Option (String × String × String) → Option (String × String)
checked_parts none = none
checked_parts (some (prefix, id, secret)) = if prefix == "ik" then some (id, secret) else none

unfoldable pub parse_key : String → Option (String × String)
parse_key key = checked_parts (second_split (split_once is_underscore key))

-- f'ik_{id}'
unfoldable pub key_name : String → String
key_name id = "ik_" ++ id

no_underscore : split_once is_underscore "ik" ≡ none
unfolding split_once first_of add_char
no_underscore = refl

-- f'ik_{id}_{secret}'
abbrev pub full_key : String → String → String
full_key id secret = "ik" ++ (underscore ∷ (id ++ (underscore ∷ secret)))

-- The parts of a key are the id and the secret that it was made of, if the id has no "_"; the
-- secret may have any.
pub parse_key-full_key :
    (id secret : String)
    → split_once is_underscore id ≡ none
    → parse_key (full_key id secret) ≡ some (id, secret)
unfolding parse_key second_split after_prefix checked_parts
parse_key-full_key id secret h = rw (
  split_once-append is_underscore underscore refl "ik" (id ++ (underscore ∷ secret)) no_underscore,
  split_once-append is_underscore underscore refl id secret h,
)
