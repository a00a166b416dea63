-- ===== src/Prelude/Dict.antt =====
-- Python's `dict` with text keys, in insertion order, as an association list.
use Prim.Native.String.{String}
use mathlib.Core.Path.{◌≡◌}
use mathlib.Core.Logic.{◌≢◌}
use mathlib.Core.Bool.{false}
use mathlib.Core.Option.{Option, none, some}
use mathlib.Core.List.{List, [], ◌∷◌}
use native.Mathlib.Omega.{arith}
use text.Mathlib.Text.{◌==◌}
use text.Mathlib.TextEquality.{eq_iff}
use imbi_api.Prelude.Tests.{if◌then◌else◌}

abbrev pub Entries {ℓ} : Type ℓ → Type ℓ
Entries A = List (String × A)

-- Texts that compare as different are different.
pub texts_apart : (a b : String) → (a == b) ≡ false → a ≢ b
texts_apart a b e same = let hit = (eq_iff a b).1 same in cc

module _ {ℓ} {A : Type ℓ} where
  -- d.get(key)
  unfoldable pub lookup : String → Entries A → Option A
  lookup key [] = none
  lookup key ((name, value) ∷ others) =
      let later = lookup key others in if name == key then some value else later

  -- d[key] = new; a key that is there keeps its place.
  unfoldable pub insert : String → A → Entries A → Entries A
  insert key new [] = (key, new) ∷ []
  insert key new ((name, value) ∷ others) =
      let later = insert key new others in
      if name == key then (key, new) ∷ others else (name, value) ∷ later

  -- d.pop(key, None)
  unfoldable pub without : String → Entries A → Entries A
  without key [] = []
  without key ((name, value) ∷ others) =
      let kept = without key others in if name == key then kept else (name, value) ∷ kept

  pub lookup-insert :
      (set read : String) (new : A) (d : Entries A)
      → lookup read (insert set new d) ≡ (if set == read then some new else lookup read d)
  unfolding lookup insert
  lookup-insert set read new [] = ground arith
  lookup-insert set read new ((name, value) ∷ others) =
      let ih = lookup-insert set read new others in
      ground (arith, ih, eq_iff name set, eq_iff name read, eq_iff set read)

  pub lookup-without :
      (gone read : String) (d : Entries A)
      → lookup read (without gone d) ≡ (if gone == read then none else lookup read d)
  unfolding lookup without
  lookup-without gone read [] = ground arith
  lookup-without gone read ((name, value) ∷ others) =
      let ih = lookup-without gone read others in
      ground (arith, ih, eq_iff name gone, eq_iff name read, eq_iff gone read)
