-- ===== src/Pagination/Cursors.antt =====
-- What is encoded into a cursor of imbi_api/endpoints/_pagination.py is decoded again.

use Prim.Native.Nat.{◌%◌}
use Prim.Native.String.{◌∷◌, ◌++◌, []}
use Prim.Native.String.append.{nil, cons}
use imbi_api.Prelude.{
  ℕ, zero, suc, ◌+◌, ◌-◌, ◌*◌, ◌≤◌, ◌≡◌, ◌≢◌, refl, sym, ap, ◌∙◌, arith, eq_iff, String, Bool, true,
  false, not, ◌&&◌, Option, none, some, ◌==◌,
}
use imbi_api.Prelude.Splits.{split_once, split_last, split_once-append, split_last-append}
use imbi_api.Pagination.{
  bar, is_bar, is_equals, strip_padding, size, pads, padding, with_id, encode_keyset, parse_keyset,
  decode_keyset, encode_cursor, parse_cursor, decode_cursor, timed, with_time,
}

-- No "=".
abbrev pub is_unpadded : String → Bool
is_unpadded [] = true
is_unpadded (c ∷ text) = not (is_equals c) && is_unpadded text

strip-pads : (n : ℕ) → strip_padding (pads n) ≡ ""
unfolding strip_padding pads
strip-pads zero = refl
strip-pads (suc n) = let ih = strip-pads n in rw ih refl

-- The padding of a text without "=" is what is stripped.
strip_padding-pads :
    (body : String) (n : ℕ) → is_unpadded body ≡ true → strip_padding (body ++ pads n) ≡ body
unfolding strip_padding
strip_padding-pads [] n h = rw (nil (pads n)) (strip-pads n)
strip_padding-pads (c ∷ body) n h =
    let plain : is_equals c ≡ false = ground (arith, h) in
    let ih = strip_padding-pads body n (ground (arith, h)) in
    rw (cons c body (pads n), ih, plain) refl

-- A body that lacks at most two characters of a multiple of four is padded by them.
padding-size :
    (body : String) (n quads : ℕ) → n ≤ 2 → size body + n ≡ 4 * quads → padding body ≡ pads n
unfolding padding
padding-size body n quads few whole =
    let same : (4 - size body % 4) % 4 ≡ n = omega (arith, few, whole) in ap pads same

-- What base64 makes of a text: four characters for each three bytes, at most two of them padding,
-- and it is decoded to the text.
pub record IsEncoded (b64decode : String → Option String) (text encoded : String) : Type 0 where
  pub body : String
  pub missing : ℕ
  pub quads : ℕ
  pub made : encoded ≡ body ++ pads missing
  pub plain : is_unpadded body ≡ true
  pub few : missing ≤ 2
  pub whole : size body + missing ≡ 4 * quads
  pub some_body : body ≢ ""
  pub decodes : b64decode encoded ≡ some text

module _ {b64decode : String → Option String} {text encoded : String}
    (b : IsEncoded b64decode text encoded) where
  stripped : strip_padding encoded ≡ b.body
  stripped = ap strip_padding b.made ∙ strip_padding-pads b.body b.missing b.plain

  padded : b.body ++ padding b.body ≡ encoded
  padded = ap (λ p. b.body ++ p) (padding-size b.body b.missing b.quads b.few b.whole) ∙ sym b.made

  full : (b.body == "") ≡ false
  full = ground (arith, b.some_body, eq_iff b.body "")

module _ (b64encode : String → String) (b64decode : String → Option String) where
  -- The cursor of a sort value and an id that is not empty and has no "|" is decoded to them,
  -- though the padding of its base64 is left out; the sort value may have any "|".
  pub decode_keyset-encode_keyset :
      (sort_value entry_id : String)
      → entry_id ≢ ""
      → split_last is_bar entry_id ≡ none
      → IsEncoded b64decode
          (sort_value ++ (bar ∷ entry_id))
          (b64encode (sort_value ++ (bar ∷ entry_id)))
      → decode_keyset b64encode b64decode (encode_keyset b64encode b64decode sort_value entry_id)
        ≡ some (sort_value, entry_id)
  unfolding decode_keyset encode_keyset parse_keyset with_id
  decode_keyset-encode_keyset sort_value entry_id named bars b =
      let id : (entry_id == "") ≡ false = ground (arith, named, eq_iff entry_id "") in
      rw
        (
          stripped b,
          full b,
          padded b,
          b.decodes,
          split_last-append is_bar bar refl sort_value entry_id bars,
          id,
        )
        refl

  -- The cursor of a time whose ISO form is read back and has no "|", and of an id that is not empty,
  -- is decoded to them.
  pub decode_cursor-encode_cursor :
      {Time : Type 0} (iso : Time → String) (of_iso : String → Option Time) (timestamp : Time)
      (entry_id : String)
      → entry_id ≢ ""
      → split_once is_bar (iso timestamp) ≡ none
      → of_iso (iso timestamp) ≡ some timestamp
      → IsEncoded b64decode
          (iso timestamp ++ (bar ∷ entry_id))
          (b64encode (iso timestamp ++ (bar ∷ entry_id)))
      → decode_cursor b64encode b64decode iso of_iso
          (encode_cursor b64encode b64decode iso of_iso timestamp entry_id)
        ≡ some (timestamp, entry_id)
  unfolding decode_cursor encode_cursor parse_cursor with_id timed with_time
  decode_cursor-encode_cursor iso of_iso timestamp entry_id named bars reads b =
      let id : (entry_id == "") ≡ false = ground (arith, named, eq_iff entry_id "") in
      rw
        (
          stripped b,
          full b,
          padded b,
          b.decodes,
          split_once-append is_bar bar refl (iso timestamp) entry_id bars,
          id,
          reads,
        )
        refl
