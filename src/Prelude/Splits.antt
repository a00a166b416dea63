-- ===== src/Prelude/Splits.antt =====
-- Python's `partition`, `rpartition`, `split` and `join` with a separator of one character.
use Prim.Native.Char.{Char}
use Prim.Native.Nat.{ℕ, zero, suc}
use Prim.Native.String.{String, [], ◌∷◌, ◌++◌}
use Prim.Native.String.append.{nil, cons}
use mathlib.Core.Path.{◌≡◌, refl, ap, ◌∙◌}
use mathlib.Core.List.{List, [], ◌∷◌}
use imbi_api.Prelude.Lists.{All}
use mathlib.Core.Bool.{Bool, true, false}
use mathlib.Core.Option.{Option, none, some}

-- A part before the separator, and what follows it.
unfoldable pub add_char : Char → Option (String × String) → Option (String × String)
add_char c none = none
add_char c (some (before, after)) = some (c ∷ before, after)

-- A character, whether it is the separator, before a text, and how that text splits.
unfoldable pub first_of : Bool → Char → String → Option (String × String) → Option (String × String)
first_of true c rest later = some ("", rest)
first_of false c rest later = add_char c later

unfoldable pub last_of : Bool → Char → String → Option (String × String) → Option (String × String)
last_of is_sep c rest (some (before, after)) = some (c ∷ before, after)
last_of true c rest none = some ("", rest)
last_of false c rest none = none

module _ (is_sep : Char → Bool) where
  -- At the first separator; `none` where there is none.
  unfoldable pub split_once : String → Option (String × String)
  split_once [] = none
  split_once (c ∷ rest) = first_of (is_sep c) c rest (split_once rest)

  -- At the last separator.
  unfoldable pub split_last : String → Option (String × String)
  split_last [] = none
  split_last (c ∷ rest) = last_of (is_sep c) c rest (split_last rest)

add_char-none : (c : Char) (o : Option (String × String)) → add_char c o ≡ none → o ≡ none
unfolding add_char
add_char-none c none h = refl
add_char-none c (some p) h = cc

first_of-none :
    (b : Bool) (c : Char) (rest : String) (later : Option (String × String))
    → first_of b c rest later ≡ none
    → (b ≡ false) × (later ≡ none)
unfolding first_of
first_of-none true c rest later h = cc
first_of-none false c rest later h = (refl, add_char-none c later h)

last_of-none :
    (b : Bool) (c : Char) (rest : String) (later : Option (String × String))
    → last_of b c rest later ≡ none
    → (b ≡ false) × (later ≡ none)
unfolding last_of
last_of-none b c rest (some p) h = cc
last_of-none true c rest none h = cc
last_of-none false c rest none h = (refl, refl)

module _ (is_sep : Char → Bool) (sep : Char) (separates : is_sep sep ≡ true) where
  -- The first part of a text is what stands before a separator, if that has none itself.
  pub split_once-append :
      (before after : String)
      → split_once is_sep before ≡ none
      → split_once is_sep (before ++ (sep ∷ after)) ≡ some (before, after)
  unfolding split_once first_of add_char
  split_once-append [] after h = rw (nil (sep ∷ after), separates) refl
  split_once-append (c ∷ before) after h =
      let (other, more) = first_of-none (is_sep c) c before (split_once is_sep before) h in
      rw (cons c before (sep ∷ after), other, split_once-append before after more) refl

  -- The last part of a text is what stands after a separator, if that has none itself.
  pub split_last-append :
      (before after : String)
      → split_last is_sep after ≡ none
      → split_last is_sep (before ++ (sep ∷ after)) ≡ some (before, after)
  unfolding split_last last_of
  split_last-append [] after h = rw (nil (sep ∷ after), h, separates) refl
  split_last-append (c ∷ before) after h =
      rw (cons c before (sep ∷ after), split_last-append before after h) refl

-- The first part of a split gets a character more.
unfoldable pub extend_first : Char → List String → List String
extend_first c [] = (c ∷ "") ∷ []
extend_first c (part ∷ parts) = (c ∷ part) ∷ parts

unfoldable pub next_part : Bool → Char → List String → List String
next_part true c parts = "" ∷ parts
next_part false c parts = extend_first c parts

-- text.split(sep)
unfoldable pub split_all : (Char → Bool) → String → List String
split_all is_sep [] = "" ∷ []
split_all is_sep (c ∷ rest) = next_part (is_sep c) c (split_all is_sep rest)

-- sep.join(parts)
unfoldable pub join : Char → List String → String
join sep [] = ""
join sep (part ∷ []) = part
join sep (part ∷ (next ∷ parts)) = part ++ (sep ∷ join sep (next ∷ parts))

module _ (is_sep : Char → Bool) where
  abbrev pub HasNone : String → Type 0
  HasNone part = split_once is_sep part ≡ none

  HasNone-cons : (c : Char) (part : String) → is_sep c ≡ false → HasNone part → HasNone (c ∷ part)
  unfolding split_once first_of add_char
  HasNone-cons c part other h = rw (other, h) refl

  HasNone-empty : HasNone ""
  unfolding split_once
  HasNone-empty = refl

  All-next_part :
      (b : Bool) (c : Char) (parts : List String)
      → is_sep c ≡ b
      → All HasNone parts
      → All HasNone (next_part b c parts)
  unfolding next_part extend_first
  All-next_part true c parts e h = (HasNone-empty, h)
  All-next_part false c [] e h = (HasNone-cons c "" e HasNone-empty, tt)
  All-next_part false c (part ∷ parts) e h = (HasNone-cons c part e h.0, h.1)

  pub All-split_all : (text : String) → All HasNone (split_all is_sep text)
  unfolding split_all
  All-split_all [] = (HasNone-empty, tt)
  All-split_all (c ∷ rest) =
      All-next_part (is_sep c) c (split_all is_sep rest) refl (All-split_all rest)

  split_all_one : (part : String) → HasNone part → split_all is_sep part ≡ part ∷ []
  unfolding split_all split_once next_part extend_first
  split_all_one [] h = refl
  split_all_one (c ∷ part) h =
      let (other, more) = first_of-none (is_sep c) c part (split_once is_sep part) h in
      rw (other, split_all_one part more) refl

  module _ (sep : Char) (separates : is_sep sep ≡ true) where
    split_all-append :
        (part rest : String)
        → HasNone part
        → split_all is_sep (part ++ (sep ∷ rest)) ≡ part ∷ split_all is_sep rest
    unfolding split_all split_once next_part extend_first
    split_all-append [] rest h = rw (nil (sep ∷ rest), separates) refl
    split_all-append (c ∷ part) rest h =
        let (other, more) = first_of-none (is_sep c) c part (split_once is_sep part) h in
        rw (cons c part (sep ∷ rest), other, split_all-append part rest more) refl

    -- Parts without the separator, joined by it, split into themselves.
    pub split_all-join :
        (part : String) (parts : List String)
        → All HasNone (part ∷ parts)
        → split_all is_sep (join sep (part ∷ parts)) ≡ part ∷ parts
    unfolding join
    split_all-join part [] h = split_all_one part h.0
    split_all-join part (next ∷ parts) h =
        split_all-append part (join sep (next ∷ parts)) h.0
        ∙ ap (λ l. part ∷ l) (split_all-join next parts h.1)

-- text[:n]
unfoldable pub take_chars : ℕ → String → String
take_chars zero text = ""
take_chars (suc n) [] = ""
take_chars (suc n) (c ∷ text) = c ∷ take_chars n text
