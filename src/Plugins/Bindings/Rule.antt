-- ===== src/Plugins/Bindings/Rule.antt =====
-- Which integrations are bound, and which options win.
use imbi_api.Prelude.{
  ◌≡◌, ◌↔◌, ◌⊎◌, inl, inr, refl, sym, arith, eq_iff, eq_refl, Bool-cases, if_taken, if_passed,
  if_both, if_second, subst, String, Bool, true, false, not, ◌&&◌, ◌||◌, Option, none, some, List,
  [], ◌∷◌, ◌==◌, if◌then◌else◌, Entries, lookup, IsDict, IsDict-insert, member,
}
use imbi_api.Plugins.Values.{Decoders}
use imbi_api.Plugins.Bindings.{
  Integration, Edge, Node, ProjectContext, Answers, CapabilityBinding, capability_enabled, is_none,
  edges_by_id, hydrate_integration, add_node, integrations_into, binding_of, bindings_from,
  bindings_in, effective_bindings,
}

-- A binding is one of a list.
abbrev pub Has : {A : Type 0} → A → List A → Type 0
Has a [] = ⊥
Has a (x ∷ xs) = (x ≡ a) ⊎ Has a xs

-- An edge of the project or of one of its types, or no project type with an edge at all.
abbrev pub IsAssigned : Entries Edge → Entries Edge → List String → String → Type 0
IsAssigned proj ptype assigned id =
    (is_none (lookup id proj) ≡ false)
    ⊎ ((is_none (lookup id ptype) ≡ false) ⊎ (member id assigned ≡ false))

abbrev pub IsBound :
    Decoders
    → String
    → Entries Edge
    → Entries Edge
    → List String
    → Entries Integration
    → CapabilityBinding
    → Type 0
IsBound c kind proj ptype assigned ints b =
    (id : String) × ((i : Integration) × ((lookup id ints ≡ some i)
        × ((capability_enabled i kind ≡ true)
            × (IsAssigned proj ptype assigned id
                × (b ≡ binding_of c i kind (lookup id proj) (lookup id ptype))))))

-- The test of the loop, as a statement.
takes_iff :
    (enabled no_proj no_ptype taken : Bool)
    → ((not enabled || (no_proj && no_ptype && taken)) ≡ false)
      ↔ ((enabled ≡ true) × ((no_proj ≡ false) ⊎ ((no_ptype ≡ false) ⊎ (taken ≡ false))))
takes_iff false no_proj no_ptype taken = (λ h. cc, λ h. cc)
takes_iff true false no_ptype taken = (λ h. (refl, inl refl), λ h. refl)
takes_iff true true false taken = (λ h. (refl, inr (inl refl)), λ h. refl)
takes_iff true true true taken = (λ h. (refl, inr (inr h)), λ h. ground (arith, h))

-- What a conditional item adds to a list.
Has-if :
    {A : Type 0} (skips : Bool) (b x : A) (rest : List A)
    → Has b (if skips then rest else x ∷ rest) ↔ (((skips ≡ false) × (x ≡ b)) ⊎ Has b rest)
Has-if true b x rest = (λ h. inr h, λ h. elim h [ inl (e, _) ↦ cc | inr r ↦ r ])
Has-if false b x rest = (
  λ h. elim h [ inl e ↦ inl (refl, e) | inr r ↦ inr r ],
  λ h. elim h [ inl (_, e) ↦ inl e | inr r ↦ inr r ],
)

some_same : {A : Type 0} {a b : A} → some a ≡ some b → a ≡ b
some_same e = cc

first_found :
    (id name : String) (i j : Integration) (others : Entries Integration)
    → (id == name) ≡ true
    → lookup name ((id, i) ∷ others) ≡ some j
    → i ≡ j
unfolding lookup
first_found id name i j others hit found =
    let e : some i ≡ some j = if_taken (λ o. o ≡ some j) (some i) (lookup name others) hit found in
    cc

later_found :
    (id name : String) (i j : Integration) (others : Entries Integration)
    → (id == name) ≡ false
    → lookup name ((id, i) ∷ others) ≡ some j
    → lookup name others ≡ some j
unfolding lookup
later_found id name i j others miss found =
    if_passed (λ o. o ≡ some j) (some i) (lookup name others) miss found

module _ (c : Decoders) where
  module _ (kind : String) (proj ptype : Entries Edge) (assigned : List String) where
    cons-IsBound :
        (id : String) (i : Integration) (others : Entries Integration) (b : CapabilityBinding)
        → lookup id others ≡ none
        → IsBound c kind proj ptype assigned others b
        → IsBound c kind proj ptype assigned ((id, i) ∷ others) b
    unfolding lookup
    cons-IsBound id i others b absent (name, (j, (found, rest))) = (
      name,
      (
        j,
        (
          elim (Bool-cases (id == name)) [
            | inl e ↦ let same = (eq_iff id name).0 e in cc
            | inr e ↦ rw e found
          ],
          rest,
        ),
      ),
    )

    abbrev passes_over : String → Integration → Bool
    passes_over id i =
        not (capability_enabled i kind)
        || (is_none (lookup id proj) && is_none (lookup id ptype) && member id assigned)

    own-IsBound :
        (id : String) (i : Integration) (others : Entries Integration) (b : CapabilityBinding)
        → passes_over id i ≡ false
        → binding_of c i kind (lookup id proj) (lookup id ptype) ≡ b
        → IsBound c kind proj ptype assigned ((id, i) ∷ others) b
    unfolding lookup
    own-IsBound id i others b takes e =
        let (enabled, rule) = (takes_iff (capability_enabled i kind) _ _ _).0 takes in
        (id, (i, (rw (eq_refl id) refl, (enabled, (rule, sym e)))))

    -- The binding of a dictionary's entry is the first one's or one of the others'.
    IsBound-cons :
        (id : String) (i : Integration) (others : Entries Integration) (b : CapabilityBinding)
        → IsBound c kind proj ptype assigned ((id, i) ∷ others) b
        → ((passes_over id i ≡ false)
            × (binding_of c i kind (lookup id proj) (lookup id ptype) ≡ b))
          ⊎ IsBound c kind proj ptype assigned others b
    unfolding lookup
    IsBound-cons id i others b (name, (j, (found, (enabled, (rule, e))))) =
        elim (Bool-cases (id == name)) [
          | inl hit ↦
              let same = (eq_iff id name).0 hit in
              let one = first_found id name i j others hit found in
              inl (
                (takes_iff (capability_enabled i kind) _ _ _).1
                    (rw one enabled, subst (IsAssigned proj ptype assigned) (sym same) rule),
                rw (one, same) (sym e),
              )
          | inr miss ↦
              inr (name, (j, (later_found id name i j others miss found, (enabled, (rule, e)))))
        ]

    bindings_from_iff :
        (ints : Entries Integration) (b : CapabilityBinding)
        → IsDict ints
        → Has b (bindings_from c kind proj ptype assigned ints)
          ↔ IsBound c kind proj ptype assigned ints b
    unfolding bindings_from lookup
    bindings_from_iff [] b h = (λ x. absurd x, λ (id, (i, (found, rest))). cc)
    bindings_from_iff ((id, i) ∷ others) b h =
        let ih = bindings_from_iff others b h.1 in
        let step =
          Has-if (passes_over id i) b (binding_of c i kind (lookup id proj) (lookup id ptype))
            (bindings_from c kind proj ptype assigned others) in
        (
          λ x. elim (step.0 x) [
            | inl (takes, e) ↦ own-IsBound id i others b takes e
            | inr r ↦ cons-IsBound id i others b h.0 (ih.0 r)
          ],
          λ x.
              step.1
                (elim (IsBound-cons id i others b x) [ inl own ↦ inl own | inr r ↦ inr (ih.1 r) ]),
        )

  node-IsDict :
      (out : Entries Integration) (n : Node) (id : Option String)
      → IsDict out
      → IsDict (add_node c out n id)
  unfolding add_node
  node-IsDict out n none h = h
  node-IsDict out n (some id) h =
      if_both IsDict (id == "") out _ h (IsDict-insert id (hydrate_integration c id n) out h)

  nodes-IsDict :
      (nodes : List Node) (out : Entries Integration)
      → IsDict out
      → IsDict (integrations_into c out nodes)
  unfolding integrations_into
  nodes-IsDict [] out h = h
  nodes-IsDict (n ∷ nodes) out h = nodes-IsDict nodes _ (node-IsDict out n n.id h)

  -- What binds an integration to the project of a context.
  abbrev pub IsBoundIn : Answers → String → ProjectContext → CapabilityBinding → Type 0
  IsBoundIn a kind x b =
      IsBound c kind (edges_by_id x.proj_edges) (edges_by_id x.ptype_edges)
        (a.assigned_ids x.org_slug) (integrations_into c [] (a.org_integrations x.org_slug)) b

  bindings_in_iff :
      (a : Answers) (kind : String) (x : ProjectContext) (bs : List CapabilityBinding)
      (b : CapabilityBinding)
      → bindings_in c a kind (some x) ≡ some bs
      → Has b bs ↔ IsBoundIn a kind x b
  unfolding bindings_in
  bindings_in_iff a kind x bs b e =
      let (_, h) = if_second (λ o. o ≡ some bs) (x.org_slug == "") none _ (λ o. cc) e in
      let same = some_same h in
      subst (λ l. Has b l ↔ IsBoundIn a kind x b) same
        (bindings_from_iff kind (edges_by_id x.proj_edges) (edges_by_id x.ptype_edges)
          (a.assigned_ids x.org_slug) _ b (nodes-IsDict (a.org_integrations x.org_slug) [] tt))

  -- An integration is bound to a project for a capability just where its organization is the
  -- project's, the capability is enabled on it, and the project or one of its types uses it for the
  -- capability, or no project type of the organization does; what the binding holds follows.
  pub effective_bindings_iff :
      (a : Answers) (kind : String) (x : ProjectContext) (bs : List CapabilityBinding)
      (b : CapabilityBinding)
      → a.context ≡ some x
      → effective_bindings c a kind ≡ some bs
      → Has b bs ↔ IsBoundIn a kind x b
  unfolding effective_bindings
  effective_bindings_iff a kind x bs b known e =
      bindings_in_iff a kind x bs b (subst (λ o. bindings_in c a kind o ≡ some bs) known e)
