-- ===== src/Pagination/Tests.antt =====
-- A cursor that is encoded and decoded, with the base64 of its text.
use Prim.Native.String.{◌++◌, ◌∷◌}
use imbi_api.Prelude.{◌≡◌, refl, arith, String, Option, none, some, ◌∷◌, ◌==◌, if◌then◌else◌}
use imbi_api.Prelude.Splits.{split_last, last_of, add_char}
use imbi_api.Pagination.{bar, is_bar, strip_padding, size, pads, encode_keyset, decode_keyset}
use imbi_api.Pagination.Cursors.{IsEncoded, decode_keyset-encode_keyset}

-- Opens the functions that are run below.
cursors : Unit {0}
unfolding split_last last_of add_char strip_padding size pads encode_keyset
cursors = tt

-- The base64 of one text.
abbrev b64encode : String → String
b64encode t = if t == "a|b|id7" then "YXxifGlkNw==" else ""

abbrev b64decode : String → Option String
b64decode t = if t == "YXxifGlkNw==" then some "a|b|id7" else none

encoded : IsEncoded b64decode ("a|b" ++ (bar ∷ "id7")) (b64encode ("a|b" ++ (bar ∷ "id7")))
unfolding cursors
encoded = record {
  body = "YXxifGlkNw";
  missing = 2;
  quads = 3;
  made = refl;
  plain = refl;
  few = omega arith;
  whole = refl;
  some_body = λ e. cc;
  decodes = refl;
}

plain_id : split_last is_bar "id7" ≡ none
unfolding cursors
plain_id = refl

-- The padding is not part of the cursor.
made : encode_keyset b64encode b64decode "a|b" "id7" ≡ "YXxifGlkNw"
unfolding cursors
made = refl

decode_keyset-encode_keyset_example :
    decode_keyset b64encode b64decode (encode_keyset b64encode b64decode "a|b" "id7")
    ≡ some ("a|b", "id7")
decode_keyset-encode_keyset_example =
    decode_keyset-encode_keyset b64encode b64decode "a|b" "id7" (λ e. cc) plain_id encoded
