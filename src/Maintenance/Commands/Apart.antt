-- ===== src/Maintenance/Commands/Apart.antt =====
-- The projects that workers have popped, and those that they hold.
use imbi_api.Prelude.{
  String, ◌≡◌, refl, subst, true, false, List, [], ◌∷◌, arith, eq_iff, member, All, IsDistinct,
  Bool-cases, inl, inr, ◌==◌,
}
use imbi_api.Maintenance.System.{release}
use imbi_api.Maintenance.System.Held.{member-release}

-- No name of one list is in the other.
abbrev pub AreApart : List String → List String → Type 0
AreApart popped held = All (λ x. member x held ≡ false) popped

pub AreApart-member :
    (x : String) (popped held : List String)
    → AreApart popped held
    → member x popped ≡ true
    → member x held ≡ false
AreApart-member x [] held a m = ground arith
AreApart-member x (y ∷ popped) held a m =
    let first = a.0 in ground (arith, AreApart-member x popped held a.1, eq_iff y x, first, m)

pub not-popped_of_held :
    (x : String) (popped held : List String)
    → AreApart popped held
    → member x held ≡ true
    → member x popped ≡ false
not-popped_of_held x [] held a m = refl
not-popped_of_held x (y ∷ popped) held a m =
    let first = a.0 in ground (arith, not-popped_of_held x popped held a.1 m, eq_iff y x, first, m)

pub AreApart-cons :
    (x : String) (popped held : List String)
    → member x popped ≡ false
    → AreApart popped held
    → AreApart popped (x ∷ held)
AreApart-cons x [] held new a = tt
AreApart-cons x (y ∷ popped) held new a =
    let first = a.0 in
    (ground (arith, first, eq_iff x y, eq_iff y x), AreApart-cons x popped held (ground arith) a.1)

pub AreApart-enter :
    (x : String) (popped held : List String)
    → IsDistinct popped
    → AreApart popped held
    → AreApart (release x popped) (x ∷ held)
unfolding release
AreApart-enter x [] held d a = tt
AreApart-enter x (y ∷ popped) held d a = elim (Bool-cases (y == x)) [
  | inl hit ↦
      let same = (eq_iff y x).0 hit in
      let new : member x popped ≡ false = subst (λ z. member z popped ≡ false) same d.0 in
      rw hit (AreApart-cons x popped held new a.1)
  | inr miss ↦
      let first = a.0 in
      rw miss (
        (ground (arith, first, miss, eq_iff x y, eq_iff y x), AreApart-enter x popped held d.1 a.1))
]

pub AreApart-report :
    (x : String) (popped held : List String)
    → AreApart popped held
    → AreApart popped (release x held)
AreApart-report x [] held a = tt
AreApart-report x (y ∷ popped) held a =
    (member-release x y held a.0, AreApart-report x popped held a.1)
