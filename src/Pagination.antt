-- ===== src/Pagination.antt =====
-- imbi_api/endpoints/_pagination.py: the cursors of the list endpoints. URL-safe base64 and the
-- ISO form of a time are arguments.
pub mod Links
pub mod Cursors
mod Tests
use Prim.Native.Char.{Char, char}
use Prim.Native.Nat.{◌%◌}
use Prim.Native.String.{◌∷◌, ◌++◌, []}
use imbi_api.Prelude.{
  ℕ, zero, suc, ◌+◌, ◌-◌, ◌&&◌, String, Bool, true, false, Option, none, some, List, ◌==◌,
  starts_with, if◌then◌else◌, refl, arith, eq_iff, Entries,
}
use imbi_api.Prelude.Splits.{split_once, split_last, split_once-append, split_last-append}
use imbi_api.Prelude.Replies.{Reply, ok, refuse}

abbrev pub bar : Char
bar = char 124 tt

abbrev pub is_equals : Char → Bool
is_equals c = starts_with (c ∷ []) "="

abbrev pub is_bar : Char → Bool
is_bar c = starts_with (c ∷ []) "|"

-- A pair whose id is not empty.
unfoldable pub with_id : Option (String × String) → Option (String × String)
with_id none = none
with_id (some (value, entry_id)) = if entry_id == "" then none else some (value, entry_id)

-- rstrip(b'=')
unfoldable pub strip_padding : String → String
strip_padding [] = []
strip_padding (c ∷ text) =
    let rest = strip_padding text in if is_equals c && rest == "" then [] else c ∷ rest

unfoldable pub size : String → ℕ
size [] = 0
size (c ∷ text) = 1 + size text

unfoldable pub pads : ℕ → String
pads zero = []
pads (suc n) = char 61 tt ∷ pads n

-- '=' * (-len(cursor) % 4)
unfoldable pub padding : String → String
unfolding pads size
padding cursor = pads ((4 - size cursor % 4) % 4)

-- base64.urlsafe_b64encode of a text in UTF-8, and the text of such a base64; `none` is a ValueError.
module _ (b64encode : String → String) (b64decode : String → Option String) where
  unfoldable pub encode_keyset : String → String → String
  encode_keyset sort_value entry_id = strip_padding (b64encode (sort_value ++ (bar ∷ entry_id)))

  unfoldable pub parse_keyset : Option String → Option (String × String)
  parse_keyset none = none
  parse_keyset (some raw) = with_id (split_last is_bar raw)

  unfoldable pub decode_keyset : String → Option (String × String)
  decode_keyset cursor =
      if cursor == "" then none else parse_keyset (b64decode (cursor ++ padding cursor))

  -- Times: `iso` is isoformat, `of_iso` fromisoformat with the normalization to UTC.
  module _ {Time : Type 0} (iso : Time → String) (of_iso : String → Option Time) where
    unfoldable pub encode_cursor : Time → String → String
    encode_cursor timestamp entry_id = strip_padding (b64encode (iso timestamp ++ (bar ∷ entry_id)))

    unfoldable pub with_time : Option Time → String → Option (Time × String)
    with_time none entry_id = none
    with_time (some t) entry_id = some (t, entry_id)

    unfoldable pub timed : Option (String × String) → Option (Time × String)
    timed none = none
    timed (some (ts, entry_id)) = with_time (of_iso ts) entry_id

    unfoldable pub parse_cursor : Option String → Option (Time × String)
    parse_cursor none = none
    parse_cursor (some raw) = timed (with_id (split_once is_bar raw))

    unfoldable pub decode_cursor : String → Option (Time × String)
    decode_cursor cursor =
        if cursor == "" then none else parse_cursor (b64decode (cursor ++ padding cursor))

    unfoldable pub or_refuse : String → Option Time → Reply Time
    or_refuse field_name none = refuse 400 ("Invalid ISO timestamp for '" ++ (field_name ++ "'"))
    or_refuse field_name (some t) = ok t

    unfoldable pub parse_iso : String → String → Reply Time
    parse_iso value field_name = or_refuse field_name (of_iso value)
