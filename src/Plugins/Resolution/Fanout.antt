-- ===== src/Plugins/Resolution/Fanout.antt =====
-- One resolution and the resolution of all: what is found usable is resolved.
use imbi_api.Prelude.{
  ◌≡◌, inl, inr, refl, subst, arith, Bool-cases, if_taken, if_passed, ◌==◌, String, Bool, true,
  Option, none, some, List, [], ◌∷◌, ◌++◌,
}
use imbi_api.Prelude.Replies.{Reply, ok, refuse, break}
use imbi_api.Plugins.Values.{Decoders}
use imbi_api.Plugins.Bindings.{CapabilityBinding, Answers, effective_bindings}
use imbi_api.Plugins.Bindings.Rule.{Has}
use imbi_api.Plugins.Registry.{Registration}
use imbi_api.Plugins.Resolution.{
  Registry, ResolvedCapability, with_handler, with_entry, resolved, has_handler, declares,
  loaded_and_enabled, usable, usable_or_refuse, choose, choose_default, default_in,
  default_or_refuse, named_or_refuse, or_unavailable, resolve_chosen, resolve_among, add_resolved,
  resolve_each, resolve_every, candidates, resolve_capability, resolve_all_capabilities,
}
use imbi_api.Plugins.Resolution.First.{IsFirst}
use imbi_api.Plugins.Resolution.Choice.{IsDefault, IsChosen, choose_iff}

-- What a choice gives is one of the bindings.
Has-append : {A : Type 0} (x : A) (front back : List A) → Has x (front ++ x ∷ back)
Has-append x [] back = inl refl
Has-append x (y ∷ front) back = inr (Has-append x front back)

IsFirst-Has :
    (test : CapabilityBinding → Bool) (b : CapabilityBinding) (bs : List CapabilityBinding)
    → IsFirst test b bs
    → Has b bs
IsFirst-Has test b bs (front, (back, (split, _))) = rw split (Has-append b front back)

IsDefault-Has : (bs : List CapabilityBinding) (b : CapabilityBinding) → IsDefault bs b → Has b bs
IsDefault-Has bs b h = elim h [
  | inl e ↦ rw e (inl refl)
  | inr (_, r) ↦ elim r [ inl f ↦ IsFirst-Has _ b bs f | inr (_, f) ↦ IsFirst-Has _ b bs f ]
]

IsChosen-Has :
    (source : Option String) (bs : List CapabilityBinding) (b : CapabilityBinding)
    → IsChosen source bs b
    → Has b bs
IsChosen-Has none bs b h = IsDefault-Has bs b h
IsChosen-Has (some source) bs b h = elim h [
  | inl (_, d) ↦ IsDefault-Has bs b d
  | inr (_, f) ↦ IsFirst-Has _ b bs f
]

-- The one answer is one of all, or a refusal; it is no other exception.
abbrev pub Agrees : {A : Type 0} → Reply A → Reply (List A) → Type 0
Agrees (ok x) (ok xs) = Has x xs
Agrees (refuse status detail) xs = Unit
Agrees _ _ = ⊥

module _ (r : Registry) (kind : String) where
  with_handler-some :
      (b : CapabilityBinding) (entry : r.RegistryEntry) (h : Option r.Handler)
      → has_handler r h ≡ true
      → (x : ResolvedCapability r) × (with_handler r b kind entry h ≡ some x)
  unfolding has_handler with_handler
  with_handler-some b entry none e = cc
  with_handler-some b entry (some handler) e = (_, refl)

  with_entry-some :
      (b : CapabilityBinding) (entry : Option r.RegistryEntry)
      → declares r kind entry ≡ true
      → (x : ResolvedCapability r) × (with_entry r b kind entry ≡ some x)
  unfolding declares with_entry
  with_entry-some b none e = cc
  with_entry-some b (some entry) e = with_handler-some b entry (r.get_capability entry kind) e

  usable-resolved :
      (rows : List Registration) (b : CapabilityBinding)
      → loaded_and_enabled r rows b kind ≡ true
      → (x : ResolvedCapability r) × (resolved r b kind ≡ some x)
  unfolding loaded_and_enabled resolved
  usable-resolved rows b e =
      with_entry-some b (r.get_plugin b.integration.plugin) (ground (arith, e))

  Has-usable :
      (rows : List Registration) (bs : List CapabilityBinding) (b : CapabilityBinding)
      → Has b (usable r rows kind bs)
      → loaded_and_enabled r rows b kind ≡ true
  unfolding usable
  Has-usable rows [] b h = absurd h
  Has-usable rows (x ∷ bs) b h =
      let rest = usable r rows kind bs in
      elim (Bool-cases (loaded_and_enabled r rows x kind)) [
        | inl hit ↦ elim (if_taken (λ l. Has b l) (x ∷ rest) rest hit h) [
          | inl e ↦ subst (λ y. loaded_and_enabled r rows y kind ≡ true) e hit
          | inr later ↦ Has-usable rows bs b later
        ]
        | inr miss ↦ Has-usable rows bs b (if_passed (λ l. Has b l) (x ∷ rest) rest miss h)
      ]

  Has-add_resolved :
      (o : Option (ResolvedCapability r)) (x : ResolvedCapability r)
      (xs : List (ResolvedCapability r))
      → Has x xs
      → Has x (add_resolved r o xs)
  unfolding add_resolved
  Has-add_resolved none x xs h = h
  Has-add_resolved (some y) x xs h = inr h

  -- Each binding that is resolved is in the answer for all.
  Has-resolve_each :
      (bs : List CapabilityBinding) (b : CapabilityBinding) (x : ResolvedCapability r)
      → resolved r b kind ≡ some x
      → Has b bs
      → Has x (resolve_each r kind bs)
  unfolding resolve_each add_resolved
  Has-resolve_each [] b x e h = absurd h
  Has-resolve_each (y ∷ bs) b x e (inl same) = rw (same, e) (inl refl)
  Has-resolve_each (y ∷ bs) b x e (inr later) =
      Has-add_resolved (resolved r y kind) x _ (Has-resolve_each bs b x e later)

  named_answers : (o : Option CapabilityBinding) → named_or_refuse o ≡ break → ⊥
  unfolding named_or_refuse
  named_answers none e = cc
  named_answers (some b) e = cc

  default_or_refuse_answers : (o : Option CapabilityBinding) → default_or_refuse o ≡ break → ⊥
  unfolding default_or_refuse
  default_or_refuse_answers none e = cc
  default_or_refuse_answers (some b) e = cc

  default_answers : (bs : List CapabilityBinding) → choose_default bs ≡ break → ⊥
  unfolding choose_default default_or_refuse
  default_answers [] e = cc
  default_answers (b ∷ []) e = cc
  default_answers (b ∷ (other ∷ bs)) e = default_or_refuse_answers (default_in (b ∷ (other ∷ bs))) e

  choose_answers :
      (source : Option String) (bs : List CapabilityBinding) → choose source bs ≡ break → ⊥
  unfolding choose
  choose_answers source [] e = cc
  choose_answers none (b ∷ bs) e = default_answers (b ∷ bs) e
  choose_answers (some source) (b ∷ bs) e = elim (Bool-cases (source == "")) [
    | inl hit ↦ default_answers (b ∷ bs) (if_taken (λ x. x ≡ break) _ _ hit e)
    | inr miss ↦ named_answers _ (if_passed (λ x. x ≡ break) _ _ miss e)
  ]

  module _ (rows : List Registration) (source : Option String) where
    chosen-Agrees :
        (bs : List CapabilityBinding) (answer : Reply CapabilityBinding)
        → choose source (usable r rows kind bs) ≡ answer
        → Agrees (resolve_chosen r kind answer) (ok (resolve_each r kind (usable r rows kind bs)))
    unfolding resolve_chosen or_unavailable
    chosen-Agrees bs (ok b) e =
        let here = IsChosen-Has source (usable r rows kind bs) b ((choose_iff source _ b).0 e) in
        let (x, found) = usable-resolved rows b (Has-usable rows bs b here) in
        rw found (Has-resolve_each (usable r rows kind bs) b x found here)
    chosen-Agrees bs (refuse status detail) e = tt
    chosen-Agrees bs break e = absurd (choose_answers source (usable r rows kind bs) e)

    among-Agrees :
        (o : Option (List CapabilityBinding))
        → Agrees
            (resolve_among r source kind (usable_or_refuse r rows kind o))
            (resolve_every r kind (usable_or_refuse r rows kind o))
    unfolding usable_or_refuse resolve_among resolve_every
    among-Agrees none = tt
    among-Agrees (some bs) = chosen-Agrees bs (choose source (usable r rows kind bs)) refl

    -- The resolution of one capability refuses or gives one of those that the resolution of all
    -- gives; the plugin of a binding that was found usable is never missing.
    pub resolve_capability-Agrees :
        (c : Decoders) (a : Answers)
        → Agrees
            (resolve_capability r c rows a kind source)
            (resolve_all_capabilities r c rows a kind)
    unfolding resolve_capability resolve_all_capabilities candidates
    resolve_capability-Agrees c a = among-Agrees (effective_bindings c a kind)
