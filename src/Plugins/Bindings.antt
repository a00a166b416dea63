-- ===== src/Plugins/Bindings.antt =====
-- plugins/assignments.py: which integrations are bound to a project for a capability. The answers
-- of the queries are arguments, decoded; an identifier is a text.
pub mod Rule
pub mod Options
use imbi_api.Prelude.{
  String, Bool, true, false, not, ◌&&◌, ◌||◌, Option, none, some, List, [], ◌∷◌, ◌==◌,
  if◌then◌else◌, Entries, lookup, insert, update, member, or_else,
}
use imbi_api.Plugins.Values.{
  Value, null, text, object, is_truthy, as_dict, or_empty, dict_of, Decoders, parse_options,
}

-- The properties of an Integration node; `none` is a property that is missing.
pub record Node : Type 0 where
  pub id : Option String
  pub slug : String
  pub plugin : String
  pub options : Option Value
  pub capabilities : Option Value
  pub encrypted_credentials : Option Value
  pub links : Option Value
  pub identifiers : Option Value

pub record Integration : Type 0 where
  pub id : String
  pub slug : String
  pub plugin : String
  pub options : Entries Value
  pub capabilities : Entries Value
  pub encrypted_credentials : Entries Value
  pub links : Entries Value
  pub identifiers : Entries Value

-- What a USES edge holds, with the id of its integration.
pub record Edge : Type 0 where
  pub id : Option String
  pub options : Value
  pub env_payloads : Value
  pub default : Value
  pub identity_integration_id : Value

pub data Source : Type 0 where
  project project_type default_all : Source

pub record CapabilityBinding : Type 0 where
  pub integration : Integration
  pub source : Source
  pub default : Bool
  pub capability_options : Entries Value
  pub env_payloads : Entries (Entries Value)
  pub identity_integration_id : Option String

-- The answer to _PROJECT_CONTEXT.
pub record ProjectContext : Type 0 where
  pub org_slug : String
  pub proj_edges : List Edge
  pub ptype_edges : List Edge

-- The answers to the three queries; `none` is a project that is not there.
pub record Answers : Type 0 where
  pub context : Option ProjectContext
  pub org_integrations : String → List Node
  pub assigned_ids : String → List String

-- The entry under a name, if it is a dictionary.
unfoldable pub capability_state : Integration → String → Entries Value
capability_state i kind = dict_of (lookup kind i.capabilities)

unfoldable pub is_set : Option Value → Bool
is_set none = false
is_set (some v) = is_truthy v

unfoldable pub capability_enabled : Integration → String → Bool
capability_enabled i kind = is_set (lookup "enabled" (capability_state i kind))

unfoldable pub coerce_id : Value → Option String
coerce_id (text t) = if t == "" then none else some t
coerce_id _ = none

-- (edge or {}).get(...)
unfoldable pub edge_options : Option Edge → Option Value
edge_options none = none
edge_options (some e) = some e.options

unfoldable pub edge_env : Option Edge → Option Value
edge_env none = none
edge_env (some e) = some e.env_payloads

unfoldable pub edge_identity : Option Edge → Option Value
edge_identity none = none
edge_identity (some e) = some e.identity_integration_id

unfoldable pub identity_of : Option Value → Option String
identity_of none = none
identity_of (some v) = coerce_id v

-- The rows under their ids; the last row of an id counts.
unfoldable pub add_edge : Entries Edge → Edge → Option String → Entries Edge
add_edge out row none = out
add_edge out row (some id) = if id == "" then out else insert id row out

unfoldable pub edges_into : Entries Edge → List Edge → Entries Edge
edges_into out [] = out
edges_into out (row ∷ rows) = edges_into (add_edge out row row.id) rows

unfoldable pub edges_by_id : List Edge → Entries Edge
edges_by_id rows = edges_into [] rows

-- merged[slug] = payload, if it is a dictionary.
unfoldable pub put_payload :
    Entries (Entries Value) → String → Option (Entries Value) → Entries (Entries Value)
put_payload merged slug none = merged
put_payload merged slug (some p) = insert slug p merged

unfoldable pub replace_payloads : Entries (Entries Value) → Entries Value → Entries (Entries Value)
replace_payloads merged [] = merged
replace_payloads merged ((slug, payload) ∷ others) =
    replace_payloads (put_payload merged slug (as_dict payload)) others

-- merged[slug] = {**merged.get(slug, {}), **payload}, if it is a dictionary.
unfoldable pub merge_payload :
    Entries (Entries Value) → String → Option (Entries Value) → Entries (Entries Value)
merge_payload merged slug none = merged
merge_payload merged slug (some p) = insert slug (update (or_empty (lookup slug merged)) p) merged

unfoldable pub merge_payloads : Entries (Entries Value) → Entries Value → Entries (Entries Value)
merge_payloads merged [] = merged
merge_payloads merged ((slug, payload) ∷ others) =
    merge_payloads (merge_payload merged slug (as_dict payload)) others

unfoldable pub source_of : Option Edge → Option Edge → Source
source_of (some e) ptype = project
source_of none (some e) = project_type
source_of none none = default_all

unfoldable pub default_of : Option Edge → Option Edge → Bool
default_of (some e) ptype = is_truthy e.default
default_of none (some e) = is_truthy e.default
default_of none none = false

unfoldable pub is_none : Option Edge → Bool
is_none none = true
is_none (some e) = false

module _ (c : Decoders) where
  unfoldable pub hydrate_integration : String → Node → Integration
  hydrate_integration id n = record {
    id = id;
    slug = n.slug;
    plugin = n.plugin;
    options = parse_options c n.options;
    capabilities = parse_options c n.capabilities;
    encrypted_credentials = parse_options c n.encrypted_credentials;
    links = parse_options c n.links;
    identifiers = parse_options c n.identifiers;
  }

  -- A node without an id is left out.
  unfoldable pub add_node : Entries Integration → Node → Option String → Entries Integration
  add_node out n none = out
  add_node out n (some id) = if id == "" then out else insert id (hydrate_integration id n) out

  unfoldable pub integrations_into : Entries Integration → List Node → Entries Integration
  integrations_into out [] = out
  integrations_into out (n ∷ nodes) = integrations_into (add_node out n n.id) nodes

  unfoldable pub merge_env_payloads : Option Value → Option Value → Entries (Entries Value)
  merge_env_payloads ptype_raw project_raw =
      merge_payloads (replace_payloads [] (parse_options c ptype_raw)) (parse_options c project_raw)

  unfoldable pub capability_options :
      Integration → String → Option Edge → Option Edge → Entries Value
  capability_options i kind proj ptype =
      update
        (update (dict_of (lookup "options" (capability_state i kind)))
          (parse_options c (edge_options ptype)))
        (parse_options c (edge_options proj))

  unfoldable pub binding_of : Integration → String → Option Edge → Option Edge → CapabilityBinding
  binding_of i kind proj ptype = record {
    integration = i;
    source = source_of proj ptype;
    default = default_of proj ptype;
    capability_options = capability_options i kind proj ptype;
    env_payloads = merge_env_payloads (edge_env ptype) (edge_env proj);
    identity_integration_id =
        or_else (identity_of (edge_identity proj)) (identity_of (edge_identity ptype));
  }

  -- The bindings of the integrations, where `assigned` has those with an edge from a project type.
  unfoldable pub bindings_from :
      String
      → Entries Edge
      → Entries Edge
      → List String
      → Entries Integration
      → List CapabilityBinding
  bindings_from kind proj ptype assigned [] = []
  bindings_from kind proj ptype assigned ((id, i) ∷ others) =
      let rest = bindings_from kind proj ptype assigned others in
      if not (capability_enabled i kind)
        || (is_none (lookup id proj) && is_none (lookup id ptype) && member id assigned)
      then rest
      else binding_of i kind (lookup id proj) (lookup id ptype) ∷ rest

  -- `none` is a LookupError.
  unfoldable pub bindings_in :
      Answers → String → Option ProjectContext → Option (List CapabilityBinding)
  bindings_in a kind none = none
  bindings_in a kind (some x) =
      if x.org_slug == ""
      then none
      else some (
          bindings_from kind (edges_by_id x.proj_edges) (edges_by_id x.ptype_edges)
            (a.assigned_ids x.org_slug) (integrations_into [] (a.org_integrations x.org_slug)))

  unfoldable pub effective_bindings : Answers → String → Option (List CapabilityBinding)
  effective_bindings a kind = bindings_in a kind a.context
