-- ===== src/Plugins/Resolution/First.antt =====
-- The first binding that passes a test, and the first default.
use imbi_api.Prelude.{
  ◌≡◌, ◌↔◌, ◌⊎◌, inl, inr, refl, sym, ap, ◌∙◌, subst, All, Bool-cases, Option-cases, if_taken,
  if_passed, Bool, true, false, none, some, List, [], ◌∷◌, ◌++◌,
}
use imbi_api.Plugins.Bindings.{CapabilityBinding}
use imbi_api.Plugins.Resolution.{find_first, is_project_default, is_type_default, default_in}

-- The first one of a list that passes a test.
abbrev pub IsFirst :
    (CapabilityBinding → Bool) → CapabilityBinding → List CapabilityBinding → Type 0
IsFirst test b bs =
    (front : List CapabilityBinding) × ((back : List CapabilityBinding) × ((bs ≡ front ++ b ∷ back)
        × (All (λ x. test x ≡ false) front × (test b ≡ true))))

abbrev pub NonePass : (CapabilityBinding → Bool) → List CapabilityBinding → Type 0
NonePass test bs = All (λ x. test x ≡ false) bs

find_first-IsFirst :
    (test : CapabilityBinding → Bool) (bs : List CapabilityBinding) (b : CapabilityBinding)
    → find_first test bs ≡ some b
    → IsFirst test b bs
unfolding find_first
find_first-IsFirst test [] b e = cc
find_first-IsFirst test (x ∷ bs) b e = elim (Bool-cases (test x)) [
  | inl hit ↦
      let same : some x ≡ some b = if_taken (λ o. o ≡ some b) _ (find_first test bs) hit e in
      let one : x ≡ b = cc in
      ([], (bs, (ap (λ y. y ∷ bs) one, (tt, (subst (λ y. test y ≡ true) one hit)))))
  | inr miss ↦
      let later = if_passed (λ o. o ≡ some b) (some x) (find_first test bs) miss e in
      let (front, (back, (split, (others, hit)))) = find_first-IsFirst test bs b later in
      (x ∷ front, (back, (ap (λ l. x ∷ l) split, ((miss, others), hit))))
]

IsFirst-find_first :
    (test : CapabilityBinding → Bool) (front back : List CapabilityBinding) (b : CapabilityBinding)
    → All (λ x. test x ≡ false) front
    → test b ≡ true
    → find_first test (front ++ b ∷ back) ≡ some b
unfolding find_first
IsFirst-find_first test [] back b others hit = rw hit refl
IsFirst-find_first test (x ∷ front) back b (miss, others) hit =
    rw miss (IsFirst-find_first test front back b others hit)

pub find_first_iff :
    (test : CapabilityBinding → Bool) (bs : List CapabilityBinding) (b : CapabilityBinding)
    → (find_first test bs ≡ some b) ↔ IsFirst test b bs
find_first_iff test bs b = (
  λ e. find_first-IsFirst test bs b e,
  λ (front, (back, (split, (others, hit)))).
      rw split (IsFirst-find_first test front back b others hit),
)

find_first-none :
    (test : CapabilityBinding → Bool) (bs : List CapabilityBinding)
    → (find_first test bs ≡ none) ↔ NonePass test bs
unfolding find_first
find_first-none test [] = (λ e. tt, λ e. refl)
find_first-none test (x ∷ bs) =
    let ih = find_first-none test bs in
    elim (Bool-cases (test x)) [
      | inl hit ↦ (
        λ e. let no = if_taken (λ o. o ≡ none) _ (find_first test bs) hit e in cc,
        λ (miss, others). cc,
      )
      | inr miss ↦ (
        λ e. (miss, ih.0 (if_passed (λ o. o ≡ none) (some x) (find_first test bs) miss e)),
        λ (miss, others). rw miss (ih.1 others),
      )
    ]

-- The first default of the project's edges, or of its types'.
pub default_in_iff :
    (bs : List CapabilityBinding) (b : CapabilityBinding)
    → (default_in bs ≡ some b) ↔ (
        IsFirst is_project_default b bs
        ⊎ (NonePass is_project_default bs × IsFirst is_type_default b bs))
unfolding default_in
default_in_iff bs b =
    let own = find_first_iff is_project_default bs in
    let none_own = find_first-none is_project_default bs in
    let type = find_first_iff is_type_default bs b in
    elim (Option-cases (find_first is_project_default bs)) [
      | inl e ↦
          let step : default_in bs ≡ find_first is_type_default bs = rw e refl in
          (
            λ h. inr (none_own.0 e, type.0 (sym step ∙ h)),
            λ h. elim h [ inl f ↦ let hit = (own b).1 f in cc | inr (_, f) ↦ step ∙ type.1 f ],
          )
      | inr (x, e) ↦
          let step : default_in bs ≡ some x = rw e refl in
          (
            λ h. inl ((own b).0 (e ∙ (sym step ∙ h))),
            λ h. elim h [
              | inl f ↦ step ∙ (sym e ∙ (own b).1 f)
              | inr (n, _) ↦ let miss = none_own.1 n in cc
            ],
          )
    ]
