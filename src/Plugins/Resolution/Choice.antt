-- ===== src/Plugins/Resolution/Choice.antt =====
-- Which integration is chosen.
use imbi_api.Prelude.{
  ◌≡◌, ◌↔◌, ◌⊎◌, inl, inr, refl, ap, arith, Bool-cases, ◌≤◌, length, String, Bool, true, false,
  Option, none, some, List, [], ◌∷◌, ◌==◌,
}
use imbi_api.Prelude.Replies.{Reply, ok, refuse, break}
use imbi_api.Plugins.Values.{Decoders}
use imbi_api.Plugins.Bindings.{CapabilityBinding, Answers}
use imbi_api.Plugins.Registry.{Registration}
use imbi_api.Plugins.Resolution.{
  Registry, ResolvedCapability, resolved, find_first, is_named, is_project_default, is_type_default,
  default_in, named_or_refuse, default_or_refuse, choose_default, choose, or_unavailable,
  resolve_chosen, resolve_among, candidates, resolve_capability,
}
use imbi_api.Plugins.Resolution.First.{IsFirst, NonePass, find_first_iff, default_in_iff}

-- The choice without a source: the only one, or the first default of the project's own edges, or,
-- without these, the first default of its types' edges.
abbrev pub IsDefault : List CapabilityBinding → CapabilityBinding → Type 0
IsDefault bs b =
    (bs ≡ b ∷ [])
    ⊎ ((2 ≤ length bs)
        × (IsFirst is_project_default b bs
            ⊎ (NonePass is_project_default bs × IsFirst is_type_default b bs)))

-- The choice.
abbrev pub IsChosen : Option String → List CapabilityBinding → CapabilityBinding → Type 0
IsChosen none bs b = IsDefault bs b
IsChosen (some source) bs b =
    ((source == "") ≡ true × IsDefault bs b)
    ⊎ (((source == "") ≡ false) × IsFirst (is_named source) b bs)

default_or_refuse_iff :
    (o : Option CapabilityBinding) (b : CapabilityBinding)
    → (default_or_refuse o ≡ ok b) ↔ (o ≡ some b)
unfolding default_or_refuse
default_or_refuse_iff none b = (λ e. cc, λ e. cc)
default_or_refuse_iff (some x) b = (λ e. cc, λ e. cc)

named_or_refuse_iff :
    (o : Option CapabilityBinding) (b : CapabilityBinding)
    → (named_or_refuse o ≡ ok b) ↔ (o ≡ some b)
unfolding named_or_refuse
named_or_refuse_iff none b = (λ e. cc, λ e. cc)
named_or_refuse_iff (some x) b = (λ e. cc, λ e. cc)

two_or_more : (x y : CapabilityBinding) (bs : List CapabilityBinding) → 2 ≤ length (x ∷ (y ∷ bs))
two_or_more x y bs = omega arith

not_one : (x y b : CapabilityBinding) (bs : List CapabilityBinding) → (x ∷ (y ∷ bs) ≡ b ∷ []) → ⊥
not_one x y b bs e = let lengths = ap length e in omega (arith, lengths)

nothing-IsDefault : (b : CapabilityBinding) → IsDefault [] b → ⊥
nothing-IsDefault b h = elim h [ inl e ↦ cc | inr (two, _) ↦ omega (arith, two) ]

nothing-IsFirst : (test : CapabilityBinding → Bool) (b : CapabilityBinding) → IsFirst test b [] → ⊥
unfolding find_first
nothing-IsFirst test b h = let e = (find_first_iff test [] b).1 h in cc

nothing-IsChosen : (source : Option String) (b : CapabilityBinding) → IsChosen source [] b → ⊥
nothing-IsChosen none b h = nothing-IsDefault b h
nothing-IsChosen (some source) b h = elim h [
  | inl (_, d) ↦ nothing-IsDefault b d
  | inr (_, f) ↦ nothing-IsFirst (is_named source) b f
]

choose_default_iff :
    (bs : List CapabilityBinding) (b : CapabilityBinding)
    → (choose_default bs ≡ ok b) ↔ IsDefault bs b
unfolding choose_default
choose_default_iff [] b = (λ e. cc, λ h. absurd (nothing-IsDefault b h))
choose_default_iff (x ∷ []) b = (
  λ e. inl (let same : x ≡ b = cc in rw same refl),
  λ h. elim h [ inl e ↦ cc | inr (two, _) ↦ absurd (omega (arith, two)) ],
)
choose_default_iff (x ∷ (y ∷ bs)) b =
    let found = default_or_refuse_iff (default_in (x ∷ (y ∷ bs))) b in
    let rule = default_in_iff (x ∷ (y ∷ bs)) b in
    (
      λ e. inr (two_or_more x y bs, rule.0 (found.0 e)),
      λ h. elim h [ inl e ↦ absurd (not_one x y b bs e) | inr (_, r) ↦ found.1 (rule.1 r) ],
    )

pub choose_iff :
    (source : Option String) (bs : List CapabilityBinding) (b : CapabilityBinding)
    → (choose source bs ≡ ok b) ↔ IsChosen source bs b
unfolding choose
choose_iff source [] b = (λ e. cc, λ h. absurd (nothing-IsChosen source b h))
choose_iff none (x ∷ bs) b = choose_default_iff (x ∷ bs) b
choose_iff (some source) (x ∷ bs) b =
    let default = choose_default_iff (x ∷ bs) b in
    let named = find_first_iff (is_named source) (x ∷ bs) b in
    let answer = named_or_refuse_iff (find_first (is_named source) (x ∷ bs)) b in
    elim (Bool-cases (source == "")) [
      | inl e ↦ rw e (
        λ h. inl (refl, default.0 h),
        λ h. elim h [ inl (_, d) ↦ default.1 d | inr (wrong, _) ↦ cc ],
      )
      | inr e ↦ rw e (
        λ h. inr (refl, named.0 (answer.0 h)),
        λ h. elim h [ inl (wrong, _) ↦ cc | inr (_, f) ↦ answer.1 (named.1 f) ],
      )
    ]

module _ (r : Registry) (c : Decoders) (rows : List Registration) (a : Answers) where
  or_unavailable_iff :
      (o : Option (ResolvedCapability r)) (x : ResolvedCapability r)
      → (or_unavailable r o ≡ ok x) ↔ (o ≡ some x)
  unfolding or_unavailable
  or_unavailable_iff none x = (λ e. cc, λ e. cc)
  or_unavailable_iff (some y) x = (λ e. cc, λ e. cc)

  resolve_chosen_iff :
      (kind : String) (answer : Reply CapabilityBinding) (x : ResolvedCapability r)
      → (resolve_chosen r kind answer ≡ ok x)
        ↔ ((b : CapabilityBinding) × ((answer ≡ ok b) × (resolved r b kind ≡ some x)))
  unfolding resolve_chosen
  resolve_chosen_iff kind (ok b) x = (
    λ e. (b, (refl, (or_unavailable_iff (resolved r b kind) x).0 e)),
    λ (b₁, (same, e)).
        let one : b ≡ b₁ = cc in (or_unavailable_iff (resolved r b kind) x).1 (rw one e),
  )
  resolve_chosen_iff kind (refuse status detail) x = (λ e. cc, λ (b, (same, e)). cc)
  resolve_chosen_iff kind break x = (λ e. cc, λ (b, (same, e)). cc)

  resolve_among_iff :
      (source : Option String) (kind : String) (answer : Reply (List CapabilityBinding))
      (x : ResolvedCapability r)
      → (resolve_among r source kind answer ≡ ok x) ↔ (
          (bs : List CapabilityBinding) × ((answer ≡ ok bs)
            × ((b : CapabilityBinding) × (IsChosen source bs b × (resolved r b kind ≡ some x)))))
  unfolding resolve_among
  resolve_among_iff source kind (ok bs) x =
      let step = resolve_chosen_iff kind (choose source bs) x in
      (
        λ e.
            let (b, (chosen, found)) = step.0 e in
            (bs, (refl, (b, ((choose_iff source bs b).0 chosen, found)))),
        λ (bs₁, (same, (b, (chosen, found)))).
            let one : bs ≡ bs₁ = cc in
            step.1 (b, ((choose_iff source bs b).1 (rw one chosen), found)),
      )
  resolve_among_iff source kind (refuse status detail) x = (λ e. cc, λ (b, (same, e)). cc)
  resolve_among_iff source kind break x = (λ e. cc, λ (b, (same, e)). cc)

  -- A project's capability resolves to an integration just where it is the one that is chosen of
  -- the usable bindings: the one that the source names, if there is a source; the only one; or the
  -- first default of the project's own edges, before the first default of its types' edges.
  pub resolve_capability_iff :
      (kind : String) (source : Option String) (x : ResolvedCapability r)
      → (resolve_capability r c rows a kind source ≡ ok x) ↔ (
          (bs : List CapabilityBinding) × ((candidates r c rows a kind ≡ ok bs)
            × ((b : CapabilityBinding) × (IsChosen source bs b × (resolved r b kind ≡ some x)))))
  unfolding resolve_capability
  resolve_capability_iff kind source x =
      resolve_among_iff source kind (candidates r c rows a kind) x
