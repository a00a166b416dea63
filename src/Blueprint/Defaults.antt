-- ===== src/Blueprint/Defaults.antt =====
-- What the check writes into an offer, and the defaults that it finds.
use imbi_api.Prelude.{
  ◌≡◌, refl, subst, arith, eq_iff, eq_refl, inl, inr, All, String, Bool, true, false, Option, none,
  some, List, [], ◌∷◌, ◌==◌, Bool-cases, Entries, lookup, IsDict,
}
use imbi_api.Prelude.Splits.{split_once, first_of, add_char, split_once-append}
use imbi_api.Blueprint.Schema.{Value, Property, Blueprint, has_default, is_safe, is_colon, colon}
use imbi_api.Blueprint.Compliance.{set_default_id, remove_stale_id}
use imbi_api.Blueprint.Remedy.{parts_or, partition_id, default_of, blueprint_default}

pub plain_set : split_once is_colon "set-default" ≡ none
unfolding split_once first_of add_char
plain_set = refl

pub plain_remove : split_once is_colon "remove-stale" ≡ none
unfolding split_once first_of add_char
plain_remove = refl

pub partition-set : (prop : String) → partition_id (set_default_id prop) ≡ ("set-default", prop)
unfolding partition_id set_default_id parts_or
partition-set prop = rw (split_once-append is_colon colon refl "set-default" prop plain_set) refl

pub partition-remove :
    (prop : String) → partition_id (remove_stale_id prop) ≡ ("remove-stale", prop)
unfolding partition_id remove_stale_id parts_or
partition-remove prop =
    rw (split_once-append is_colon colon refl "remove-stale" prop plain_remove) refl

-- A safe name is not empty.
pub safe_named : (prop : String) → is_safe prop ≡ true → (prop == "") ≡ false
unfolding is_safe
safe_named prop h = elim (Bool-cases (prop == "")) [
  | inl e ↦
      (let same : prop ≡ "" = ground (arith, eq_iff prop "", e) in
        let safe = subst (λ x. is_safe x ≡ true) same h in cc)
  | inr e ↦ e
]

-- A dictionary's entries are the ones that its keys look up.
abbrev pub Finds : {A : Type 0} → Entries A → Entries A → Type 0
Finds whole xs = All (λ e. lookup e.0 whole ≡ some e.1) xs

pub Finds-cons :
    {A : Type 0} (key : String) (value : A) (whole xs : Entries A)
    → lookup key xs ≡ none
    → Finds whole xs
    → Finds ((key, value) ∷ whole) xs
unfolding lookup
Finds-cons key value whole [] absent h = tt
Finds-cons key value whole ((k, v) ∷ xs) absent h = (
  let found = h.0 in ground (arith, absent, found, eq_iff k key, eq_iff key k),
  Finds-cons key value whole xs (ground (arith, absent)) h.1,
)

pub IsDict-Finds : {A : Type 0} (d : Entries A) → IsDict d → Finds d d
unfolding lookup
IsDict-Finds [] h = tt
IsDict-Finds ((key, value) ∷ others) h =
    (rw (eq_refl key) refl, Finds-cons key value others others h.0 (IsDict-Finds others h.1))

abbrev pub is_some : {A : Type 0} → Option A → Bool
is_some none = false
is_some (some a) = true

-- A blueprint's default is kept by the blueprints before it.
pub default_of-later :
    (p : Option Property) (later : Option Value)
    → is_some later ≡ true
    → is_some (default_of p later) ≡ true
unfolding default_of
default_of-later none later h = h
default_of-later (some p) none h = cc
default_of-later (some p) (some v) h = refl

pub default_of-own :
    (p : Property) (later : Option Value)
    → has_default p ≡ true
    → is_some (default_of (some p) later) ≡ true
unfolding default_of has_default
default_of-own p (some v) h = refl
default_of-own p none h = ground (arith, h)

-- Where the lists that a check runs over stand in the whole list of applicable blueprints.
abbrev pub Covers : List Blueprint → List Blueprint → Type 0
Covers whole part =
    (prop : String)
    → is_some (blueprint_default part prop) ≡ true
    → is_some (blueprint_default whole prop) ≡ true
