-- ===== src/Maintenance/State/Seed.antt =====
-- Seeding the pending set, by chunks.

use imbi_api.Prelude.{
  ℕ, zero, suc, ◌+◌, ◌≤◌, String, ◌≡◌, refl, ◌∙◌, ap, false, List, [], ◌∷◌, ◌++◌, arith, eq_iff,
  sym, length, take, drop, All, take-append-drop, length-drop, member, IsDistinct,
}
use imbi_api.Valkey.{Valkey}
use imbi_api.Maintenance.State.{sadd_chunk, sadd_all, seed}

module _ (V : Valkey) where
  open V use {IdSet, no_members, sadd, scard, has, scard_empty, has_empty, scard_sadd, has_sadd}

  sadd_all-append :
      (xs ys : List String) (s : IdSet) → sadd_all V (xs ++ ys) s ≡ sadd_all V ys (sadd_all V xs s)
  unfolding sadd_all
  sadd_all-append [] ys s = refl
  sadd_all-append (x ∷ xs) ys s = sadd_all-append xs ys (sadd x s)

  -- The chunked loop adds exactly the ids, in order, whatever the chunk's size.
  pub seed-eq-sadd_all :
      (rounds : ℕ) (ids : List String) (s : IdSet)
      → length ids ≤ rounds
      → seed V rounds ids s ≡ sadd_all V ids s
  unfolding seed
  seed-eq-sadd_all zero [] s h = unfold sadd_all in refl
  seed-eq-sadd_all zero (x ∷ xs) s h = absurd (omega arith)
  seed-eq-sadd_all (suc rounds) [] s h = unfold sadd_all in refl
  seed-eq-sadd_all (suc rounds) (x ∷ xs) s h =
      seed-eq-sadd_all rounds (drop sadd_chunk (x ∷ xs)) (sadd_all V (take sadd_chunk (x ∷ xs)) s)
        (omega (arith, length-drop sadd_chunk (x ∷ xs)))
      ∙ (sym (sadd_all-append (take sadd_chunk (x ∷ xs)) (drop sadd_chunk (x ∷ xs)) s)
          ∙ ap (λ l. sadd_all V l s) (take-append-drop sadd_chunk (x ∷ xs)))

  has-sadd_all :
      (y : String) (xs : List String) (s : IdSet)
      → has y s ≡ false
      → member y xs ≡ false
      → has y (sadd_all V xs s) ≡ false
  unfolding sadd_all
  has-sadd_all y [] s h m = h
  has-sadd_all y (x ∷ xs) s h m =
      has-sadd_all y xs (sadd x s) (ground (arith, has_sadd x y s)) (ground arith)

  -- None of the texts is a member.
  abbrev pub AreNew : List String → IdSet → Type 0
  AreNew xs s = All (λ x. has x s ≡ false) xs

  pub AreNew-sadd :
      (x : String) (ys : List String) (s : IdSet)
      → member x ys ≡ false
      → AreNew ys s
      → AreNew ys (sadd x s)
  AreNew-sadd x [] s m h = tt
  AreNew-sadd x (y ∷ ys) s m h = (
    ground (arith, has_sadd x y s, eq_iff x y, eq_iff y x),
    AreNew-sadd x ys s (ground arith) h.1,
  )

  -- Ids that are new and distinct are all counted.
  pub scard-sadd_all :
      (xs : List String) (s : IdSet)
      → IsDistinct xs
      → AreNew xs s
      → scard (sadd_all V xs s) ≡ scard s + length xs
  unfolding sadd_all
  scard-sadd_all [] s d new = omega arith
  scard-sadd_all (x ∷ xs) s d new =
      let later = scard-sadd_all xs (sadd x s) d.1 (AreNew-sadd x xs s d.0 new.1) in
      ground (arith, later, scard_sadd x s)

  pub AreNew-empty : (xs : List String) → AreNew xs no_members
  AreNew-empty [] = tt
  AreNew-empty (x ∷ xs) = (has_empty x, AreNew-empty xs)

  -- The seeded set counts each of distinct ids once.
  pub scard-seed :
      (ids : List String) → IsDistinct ids → scard (seed V (length ids) ids no_members) ≡ length ids
  scard-seed ids d =
      rw (seed-eq-sadd_all (length ids) ids no_members (omega arith))
        (omega (arith, scard-sadd_all ids no_members d (AreNew-empty ids), scard_empty))
