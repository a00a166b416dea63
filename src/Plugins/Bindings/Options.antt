-- ===== src/Plugins/Bindings/Options.antt =====
-- Which options and payloads of a binding win.
use imbi_api.Prelude.{
  ◌≡◌, refl, sym, inl, inr, eq_iff, Bool-cases, arith, String, Option, none, some, [], ◌∷◌, ◌==◌,
  if◌then◌else◌, Entries, lookup, lookup-insert, IsDict, IsDict-update, lookup-update, update,
  or_else,
}
use imbi_api.Plugins.Values.{
  Value, null, text, object, as_dict, or_empty, dict_of, Decoders, decoded, parse_options,
}
use imbi_api.Plugins.Bindings.{
  Integration, Edge, capability_state, edge_options, edge_env, put_payload, merge_payload,
  replace_payloads, merge_payloads, merge_env_payloads, capability_options, binding_of,
}

-- payloads[slug][key], and the same of a dictionary of values, of which only dictionaries count.
abbrev pub value_in : Option (Entries Value) → String → Option Value
value_in none key = none
value_in (some p) key = lookup key p

abbrev pub dict_in : Option Value → Option (Entries Value)
dict_in none = none
dict_in (some v) = as_dict v

-- What a payload becomes under another one.
abbrev merged_payload : Option (Entries Value) → Option (Entries Value) → Option (Entries Value)
merged_payload old none = old
merged_payload old (some p) = some (update (or_empty old) p)

abbrev replaced_payload : Option (Entries Value) → Option (Entries Value) → Option (Entries Value)
replaced_payload old none = old
replaced_payload old (some p) = some p

lookup-merge_payload :
    (name slug : String) (merged : Entries (Entries Value)) (o : Option (Entries Value))
    → lookup slug (merge_payload merged name o)
      ≡ (if name == slug then merged_payload (lookup slug merged) o else lookup slug merged)
unfolding merge_payload
lookup-merge_payload name slug merged none = ground arith
lookup-merge_payload name slug merged (some p) =
    rw (lookup-insert name slug _ merged) (elim (Bool-cases (name == slug)) [
      | inl e ↦ rw (e, (eq_iff name slug).0 e) refl
      | inr e ↦ rw e refl
    ])

lookup-put_payload :
    (name slug : String) (merged : Entries (Entries Value)) (o : Option (Entries Value))
    → lookup slug (put_payload merged name o)
      ≡ (if name == slug then replaced_payload (lookup slug merged) o else lookup slug merged)
unfolding put_payload
lookup-put_payload name slug merged none = ground arith
lookup-put_payload name slug merged (some p) = lookup-insert name slug p merged

lookup-merge_payloads :
    (slug : String) (raw : Entries Value) (merged : Entries (Entries Value))
    → IsDict raw
    → lookup slug (merge_payloads merged raw)
      ≡ merged_payload (lookup slug merged) (dict_in (lookup slug raw))
unfolding merge_payloads lookup
lookup-merge_payloads slug [] merged h = refl
lookup-merge_payloads slug ((name, v) ∷ raw) merged h =
    let ih = lookup-merge_payloads slug raw (merge_payload merged name (as_dict v)) h.1 in
    let own = lookup-merge_payload name slug merged (as_dict v) in
    elim (Bool-cases (name == slug)) [
      | inl e ↦ let same = (eq_iff name slug).0 e in rw (ih, own, e, sym same, h.0) refl
      | inr e ↦ rw (ih, own, e) refl
    ]

lookup-replace_payloads :
    (slug : String) (raw : Entries Value) (merged : Entries (Entries Value))
    → IsDict raw
    → lookup slug (replace_payloads merged raw)
      ≡ replaced_payload (lookup slug merged) (dict_in (lookup slug raw))
unfolding replace_payloads lookup
lookup-replace_payloads slug [] merged h = refl
lookup-replace_payloads slug ((name, v) ∷ raw) merged h =
    let ih = lookup-replace_payloads slug raw (put_payload merged name (as_dict v)) h.1 in
    let own = lookup-put_payload name slug merged (as_dict v) in
    elim (Bool-cases (name == slug)) [
      | inl e ↦ let same = (eq_iff name slug).0 e in rw (ih, own, e, sym same, h.0) refl
      | inr e ↦ rw (ih, own, e) refl
    ]

module _ (c : Decoders) where
  as_dict-IsDict : (v : Value) → IsDict (or_empty (as_dict v))
  unfolding as_dict or_empty
  as_dict-IsDict (object fields) = IsDict-update [] _ tt
  as_dict-IsDict null = tt
  as_dict-IsDict (text t) = tt
  as_dict-IsDict (Value.boolean b) = tt
  as_dict-IsDict (Value.number n) = tt
  as_dict-IsDict (Value.array xs) = tt

  dict_of-IsDict : (v : Option Value) → IsDict (dict_of v)
  unfolding dict_of
  dict_of-IsDict none = tt
  dict_of-IsDict (some v) = as_dict-IsDict v

  decoded-IsDict : (v : Value) → IsDict (decoded c v)
  unfolding decoded
  decoded-IsDict (text t) = dict_of-IsDict (c.loads t)
  decoded-IsDict (object fields) = as_dict-IsDict (object fields)
  decoded-IsDict null = as_dict-IsDict null
  decoded-IsDict (Value.boolean b) = as_dict-IsDict (Value.boolean b)
  decoded-IsDict (Value.number n) = as_dict-IsDict (Value.number n)
  decoded-IsDict (Value.array xs) = as_dict-IsDict (Value.array xs)

  parse_options-IsDict : (v : Option Value) → IsDict (parse_options c v)
  unfolding parse_options
  parse_options-IsDict none = tt
  parse_options-IsDict (some null) = tt
  parse_options-IsDict (some (text t)) = decoded-IsDict (c.parse_agtype (text t))
  parse_options-IsDict (some (object fields)) = decoded-IsDict (c.parse_agtype (object fields))
  parse_options-IsDict (some (Value.boolean b)) = decoded-IsDict (c.parse_agtype (Value.boolean b))
  parse_options-IsDict (some (Value.number n)) = decoded-IsDict (c.parse_agtype (Value.number n))
  parse_options-IsDict (some (Value.array xs)) = decoded-IsDict (c.parse_agtype (Value.array xs))

  lookup-capability_options :
      (i : Integration) (kind : String) (proj ptype : Option Edge) (key : String)
      → lookup key (capability_options c i kind proj ptype)
        ≡ or_else (lookup key (parse_options c (edge_options proj))) (
            or_else
              (lookup key (parse_options c (edge_options ptype)))
              (lookup key (dict_of (lookup "options" (capability_state i kind)))))
  unfolding capability_options
  lookup-capability_options i kind proj ptype key =
      rw
        (
          lookup-update key _ (parse_options c (edge_options proj))
              (parse_options-IsDict (edge_options proj)),
          lookup-update key _ (parse_options c (edge_options ptype))
              (parse_options-IsDict (edge_options ptype)),
        )
        refl

  -- Both dictionaries of a pair are one payload, in which the second goes before the first.
  merged-Prefers :
      (key : String) (ptype proj : Option (Entries Value))
      → IsDict (or_empty proj)
      → value_in (merged_payload (replaced_payload none ptype) proj) key
        ≡ or_else (value_in proj key) (value_in ptype key)
  unfolding or_empty lookup
  merged-Prefers key none none h = refl
  merged-Prefers key (some a) none h = refl
  merged-Prefers key none (some b) h = lookup-update key [] b h
  merged-Prefers key (some a) (some b) h = lookup-update key a b h

  payload-IsDict : (v : Option Value) → IsDict (or_empty (dict_in v))
  unfolding or_empty
  payload-IsDict none = tt
  payload-IsDict (some v) = as_dict-IsDict v

  lookup-merge_env_payloads :
      (ptype proj : Option Value) (slug key : String)
      → value_in (lookup slug (merge_env_payloads c ptype proj)) key
        ≡ or_else
            (value_in (dict_in (lookup slug (parse_options c proj))) key)
            (value_in (dict_in (lookup slug (parse_options c ptype))) key)
  unfolding merge_env_payloads lookup
  lookup-merge_env_payloads ptype proj slug key =
      rw
        (
          lookup-merge_payloads slug (parse_options c proj) _ (parse_options-IsDict proj),
          lookup-replace_payloads slug (parse_options c ptype) [] (parse_options-IsDict ptype),
        )
        (merged-Prefers key _ (dict_in (lookup slug (parse_options c proj))) (payload-IsDict _))

  -- Of a binding's options, one of the project's edge goes before the one of the project type's edge,
  -- and this one before the integration's own; of its payloads, the value of the project's edge
  -- goes before the project type's, key by key, under each environment.
  pub binding_of-Prefers :
      (i : Integration) (kind : String) (proj ptype : Option Edge) (slug key : String)
      → (lookup key (binding_of c i kind proj ptype).capability_options
          ≡ or_else (lookup key (parse_options c (edge_options proj))) (
              or_else
                (lookup key (parse_options c (edge_options ptype)))
                (lookup key (dict_of (lookup "options" (capability_state i kind))))))
        × (value_in (lookup slug (binding_of c i kind proj ptype).env_payloads) key
            ≡ or_else
                (value_in (dict_in (lookup slug (parse_options c (edge_env proj)))) key)
                (value_in (dict_in (lookup slug (parse_options c (edge_env ptype)))) key))
  unfolding binding_of
  binding_of-Prefers i kind proj ptype slug key = (
    lookup-capability_options i kind proj ptype key,
    lookup-merge_env_payloads (edge_env ptype) (edge_env proj) slug key,
  )
