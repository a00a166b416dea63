-- ===== src/Plugins/Tests.antt =====
-- Two integrations of one organization, and a project with an edge of its own.
use imbi_api.Prelude.{
  ◌≡◌, ◌↔◌, refl, String, true, false, none, some, List, [], ◌∷◌, lookup, insert, update, or_else,
}
use imbi_api.Prelude.Replies.{ok}
use imbi_api.Plugins.Values.{
  Value, null, boolean, text, object, no_members, key_value, pairs, is_truthy, as_dict, or_empty,
  dict_of, Decoders, decoded, parse_options,
}
use imbi_api.Plugins.Bindings.{
  Node, Integration, Edge, ProjectContext, Answers, CapabilityBinding, capability_state, is_set,
  capability_enabled, edge_options, edge_env, add_edge, edges_into, edges_by_id, add_node,
  hydrate_integration, integrations_into, binding_of, capability_options, bindings_from,
  bindings_in, effective_bindings, is_none,
}
use imbi_api.Plugins.Bindings.Rule.{Has, IsBoundIn, effective_bindings_iff}
use imbi_api.Plugins.Bindings.Options.{value_in, dict_in, binding_of-Prefers}
use imbi_api.Plugins.Registry.{
  Registration, seed_registrations, is_plugin_enabled, enabled-seed_registrations,
}
use imbi_api.Plugins.Resolution.{
  Registry, ResolvedCapability, resolved, candidates, resolve_capability,
}
use imbi_api.Plugins.Resolution.Choice.{IsChosen, resolve_capability_iff}

abbrev plain : Decoders
plain = record { parse_agtype = λ v. v; loads = λ t. none }

abbrev enabled_for : String → Value
enabled_for kind = object (
    key_value kind
      (object (
        key_value "enabled" (boolean true)
          (key_value "options" (object (key_value "branch" (text "main") no_members)) no_members)))
      no_members)

abbrev node : String → String → Node
node id slug = record {
  id = some id;
  slug = slug;
  plugin = "github";
  options = none;
  capabilities = some (enabled_for "deployment");
  encrypted_credentials = none;
  links = none;
  identifiers = none;
}

abbrev edge : String → Edge
edge id = record {
  id = some id;
  options = object (key_value "branch" (text "release") no_members);
  env_payloads =
      object (key_value "prod" (object (key_value "branch" (text "eu-1") no_members)) no_members);
  default = boolean true;
  identity_integration_id = null;
}

abbrev context : ProjectContext
context = record { org_slug = "acme"; proj_edges = edge "i1" ∷ []; ptype_edges = [] }

-- The second integration is assigned to another project type.
abbrev answers : Answers
answers = record {
  context = some context;
  org_integrations = λ org. node "i1" "cloud" ∷ (node "i2" "server" ∷ []);
  assigned_ids = λ org. "i2" ∷ [];
}

abbrev cloud : Integration
cloud = hydrate_integration plain "i1" (node "i1" "cloud")

abbrev bound : CapabilityBinding
bound = binding_of plain cloud "deployment" (some (edge "i1")) none

one_bound : effective_bindings plain answers "deployment" ≡ some (bound ∷ [])
unfolding effective_bindings bindings_in bindings_from edges_by_id edges_into add_edge
    integrations_into add_node insert lookup capability_enabled is_set capability_state dict_of
    as_dict or_empty hydrate_integration parse_options decoded pairs update is_truthy is_none
one_bound = refl

effective_bindings_iff_example :
    Has bound (bound ∷ []) ↔ IsBoundIn plain answers "deployment" context bound
effective_bindings_iff_example =
    effective_bindings_iff plain answers "deployment" context (bound ∷ []) bound refl one_bound

binding_of-Prefers_example :
    (lookup "branch" bound.capability_options
      ≡ or_else (lookup "branch" (parse_options plain (edge_options (some (edge "i1"))))) (
          or_else
            (lookup "branch" (parse_options plain (edge_options none)))
            (lookup "branch" (dict_of (lookup "options" (capability_state cloud "deployment"))))))
    × (value_in (lookup "prod" bound.env_payloads) "branch"
        ≡ or_else
            (value_in
              (dict_in (lookup "prod" (parse_options plain (edge_env (some (edge "i1"))))))
              "branch")
            (value_in (dict_in (lookup "prod" (parse_options plain (edge_env none)))) "branch"))
binding_of-Prefers_example =
    binding_of-Prefers plain cloud "deployment" (some (edge "i1")) none "prod" "branch"

-- The option of the project's edge is the one that is read.
branch_read : lookup "branch" bound.capability_options ≡ some (text "release")
unfolding binding_of capability_options edge_options parse_options decoded as_dict or_empty pairs
    update insert lookup dict_of capability_state hydrate_integration
branch_read = refl

abbrev rows : List Registration
rows = record { slug = "github"; enabled = some (boolean true) } ∷ []

enabled-seed_registrations_example :
    is_plugin_enabled (seed_registrations (("github", false) ∷ (("jira", false) ∷ [])) rows) "jira"
    ≡ is_plugin_enabled rows "jira"
enabled-seed_registrations_example =
    enabled-seed_registrations (("github", false) ∷ (("jira", false) ∷ [])) rows "jira"

abbrev plugins : Registry
plugins = record {
  RegistryEntry = String;
  Handler = String;
  get_plugin = λ slug. some slug;
  get_capability = λ entry kind. some kind;
}

abbrev found : ResolvedCapability plugins
found = record {
  integration = cloud;
  kind = "deployment";
  entry = "github";
  handler = "deployment";
  capability_options = bound.capability_options;
  env_payloads = some bound.env_payloads;
  identity_integration_id = none;
}

resolve_capability_iff_example :
    (resolve_capability plugins plain rows answers "deployment" (some "cloud") ≡ ok found) ↔ (
      (bs : List CapabilityBinding) × ((candidates plugins plain rows answers "deployment" ≡ ok bs)
        × ((b : CapabilityBinding) × (IsChosen (some "cloud") bs b
              × (resolved plugins b "deployment" ≡ some found)))))
resolve_capability_iff_example =
    resolve_capability_iff plugins plain rows answers "deployment" (some "cloud") found
