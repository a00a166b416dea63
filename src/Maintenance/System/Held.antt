-- ===== src/Maintenance/System/Held.antt =====
-- Letting one held project go.
use imbi_api.Prelude.{
  ◌≡◌, String, true, false, List, some, [], ◌∷◌, arith, eq_iff, member, length, IsDistinct, ◌+◌,
}
use imbi_api.Valkey.{Valkey}
use imbi_api.Maintenance.State.Seed.{AreNew}
use imbi_api.Maintenance.System.{release}

pub length-release :
    (x : String) (h : List String) → member x h ≡ true → length h ≡ length (release x h) + 1
unfolding release
length-release x [] m = ground arith
length-release x (y ∷ ys) m = ground (arith, length-release x ys)

pub member-release :
    (x y : String) (h : List String) → member y h ≡ false → member y (release x h) ≡ false
unfolding release
member-release x y [] m = m
member-release x y (z ∷ zs) m = ground (arith, member-release x y zs)

pub IsDistinct-release : (x : String) (h : List String) → IsDistinct h → IsDistinct (release x h)
unfolding release
IsDistinct-release x [] d = d
IsDistinct-release x (y ∷ ys) d =
    ground (arith, IsDistinct-release x ys d.1, member-release x y ys d.0)

pub member-release_self :
    (x : String) (h : List String) → IsDistinct h → member x (release x h) ≡ false
unfolding release
member-release_self x [] d = ground arith
member-release_self x (y ∷ ys) d = ground (arith, member-release_self x ys d.1, eq_iff y x)

module _ (V : Valkey) where
  open V use {IdSet, has, has_spop}

  pub AreNew-release :
      (x : String) (h : List String) (s : IdSet) → AreNew V h s → AreNew V (release x h) s
  unfolding release
  AreNew-release x [] s a = a
  AreNew-release x (y ∷ ys) s a = ground (arith, AreNew-release x ys s a.1)

  -- What is not pending is not pending after SPOP either.
  pub AreNew-spop :
      (h : List String) (s : IdSet) (x : String) (t : IdSet)
      → V.spop s ≡ some (x, t)
      → AreNew V h s
      → AreNew V h t
  AreNew-spop [] s x t e a = tt
  AreNew-spop (y ∷ ys) s x t e a = (ground (arith, has_spop s x t y e), AreNew-spop ys s x t e a.1)

  -- A pending project is not held.
  pub not-held_of_has :
      (h : List String) (s : IdSet) (x : String)
      → has x s ≡ true
      → AreNew V h s
      → member x h ≡ false
  not-held_of_has [] s x p a = ground arith
  not-held_of_has (y ∷ ys) s x p a = ground (arith, not-held_of_has ys s x p a.1, eq_iff y x)
