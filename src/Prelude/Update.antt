-- ===== src/Prelude/Update.antt =====
-- Merging dictionaries: `{**base, **over}`.
use Prim.Native.String.{String}
use mathlib.Core.Path.{◌≡◌, refl, sym}
use mathlib.Core.Logic.{inl, inr}
use mathlib.Core.Option.{Option, none, some}
use mathlib.Core.List.{[], ◌∷◌}
use native.Mathlib.Omega.{arith}
use text.Mathlib.Text.{◌==◌}
use text.Mathlib.TextEquality.{eq_iff}
use imbi_api.Prelude.Tests.{if◌then◌else◌, Bool-cases}
use imbi_api.Prelude.Dict.{Entries, lookup, insert, lookup-insert}

module _ {ℓ} {A : Type ℓ} where
  -- No key occurs twice.
  abbrev pub IsDict : Entries A → Type ℓ
  IsDict [] = Unit
  IsDict ((key, value) ∷ others) = (lookup key others ≡ none) × IsDict others

  -- {**base, **over}
  unfoldable pub update : Entries A → Entries A → Entries A
  update base [] = base
  update base ((key, value) ∷ over) = update (insert key value base) over

  -- A value, or the one to take without it.
  abbrev pub or_else : Option A → Option A → Option A
  or_else none other = other
  or_else (some a) other = some a

  pub IsDict-insert :
      (key : String) (new : A) (d : Entries A) → IsDict d → IsDict (insert key new d)
  unfolding insert lookup
  IsDict-insert key new [] h = (refl, tt)
  IsDict-insert key new ((name, value) ∷ others) h =
      let ih = IsDict-insert key new others h.1 in
      let same = lookup-insert key name new others in
      let own = h.0 in ground (arith, ih, same, own, eq_iff name key, eq_iff key name)

  pub IsDict-update : (base over : Entries A) → IsDict base → IsDict (update base over)
  unfolding update
  IsDict-update base [] h = h
  IsDict-update base ((key, value) ∷ over) h =
      IsDict-update (insert key value base) over (IsDict-insert key value base h)

  -- A key that the one dictionary has, the other has not.
  first_or_else :
      (name key : String) (over : Entries A) (value : A) (base : Option A)
      → lookup name over ≡ none
      → or_else (lookup key over) (if name == key then some value else base)
        ≡ or_else (if name == key then some value else lookup key over) base
  first_or_else name key over value base h = elim (Bool-cases (name == key)) [
    | inl e ↦ rw (e, sym ((eq_iff name key).0 e), h) refl
    | inr e ↦ rw e refl
  ]

  pub lookup-update :
      (key : String) (base over : Entries A)
      → IsDict over
      → lookup key (update base over) ≡ or_else (lookup key over) (lookup key base)
  unfolding update lookup
  lookup-update key base [] h = refl
  lookup-update key base ((name, value) ∷ over) h =
      let ih = lookup-update key (insert name value base) over h.1 in
      let here = lookup-insert name key value base in
      rw (ih, here) (first_or_else name key over value (lookup key base) h.0)
