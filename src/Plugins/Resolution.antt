-- ===== src/Plugins/Resolution.antt =====
-- plugins/resolution.py: the integration that serves a project for a capability. The registry of
-- plugins is an argument; an answer of `none` from `resolved` is a PluginNotFoundError. The
-- details of the refusals leave out the names that the source puts into them.
pub mod First
pub mod Choice
pub mod Fanout
use imbi_api.Prelude.{
  String, Bool, true, false, not, ◌&&◌, ◌||◌, Option, none, some, List, [], ◌∷◌, ◌==◌,
  if◌then◌else◌, Entries, or_else,
}
use imbi_api.Prelude.Replies.{Reply, ok, refuse, break}
use imbi_api.Plugins.Values.{Value, Decoders}
use imbi_api.Plugins.Bindings.{
  Integration, Source, CapabilityBinding, Answers, effective_bindings, project, project_type,
}
use imbi_api.Plugins.Registry.{Registration, is_plugin_enabled}

-- get_plugin, with `none` for PluginNotFoundError, and manifest.get_capability.
pub record Registry : Type 1 where
  pub RegistryEntry : Type 0
  pub Handler : Type 0
  pub get_plugin : String → Option RegistryEntry
  pub get_capability : RegistryEntry → String → Option Handler

-- next((b for b in bs if test(b)), None)
unfoldable pub find_first :
    (CapabilityBinding → Bool) → List CapabilityBinding → Option CapabilityBinding
find_first test [] = none
find_first test (b ∷ bs) = let later = find_first test bs in if test b then some b else later

-- source in (slug, id)
unfoldable pub is_named : String → CapabilityBinding → Bool
is_named source b = source == b.integration.slug || source == b.integration.id

unfoldable pub is_project : Source → Bool
is_project project = true
is_project _ = false

unfoldable pub is_project_type : Source → Bool
is_project_type project_type = true
is_project_type _ = false

unfoldable pub is_project_default : CapabilityBinding → Bool
is_project_default b = is_project b.source && b.default

unfoldable pub is_type_default : CapabilityBinding → Bool
is_type_default b = is_project_type b.source && b.default

-- (project_defaults or type_defaults)[0]
unfoldable pub default_in : List CapabilityBinding → Option CapabilityBinding
default_in bs = or_else (find_first is_project_default bs) (find_first is_type_default bs)

unfoldable pub named_or_refuse : Option CapabilityBinding → Reply CapabilityBinding
named_or_refuse none = refuse 404 "Integration does not provide the capability"
named_or_refuse (some b) = ok b

unfoldable pub default_or_refuse : Option CapabilityBinding → Reply CapabilityBinding
default_or_refuse none = refuse 400 "Multiple integrations provide this capability"
default_or_refuse (some b) = ok b

unfoldable pub choose_default : List CapabilityBinding → Reply CapabilityBinding
choose_default [] = refuse 404 "No integration provides the capability"
choose_default (b ∷ []) = ok b
choose_default (b ∷ (other ∷ bs)) = default_or_refuse (default_in (b ∷ (other ∷ bs)))

-- An empty source counts as none.
unfoldable pub choose : Option String → List CapabilityBinding → Reply CapabilityBinding
choose source [] = refuse 404 "No integration provides the capability"
choose none (b ∷ bs) = choose_default (b ∷ bs)
choose (some source) (b ∷ bs) =
    if source == ""
    then choose_default (b ∷ bs)
    else named_or_refuse (find_first (is_named source) (b ∷ bs))

module _ (r : Registry) where
  -- The ids, slugs and options of the tuple are the integration's.
  pub record ResolvedCapability : Type 0 where
    pub integration : Integration
    pub kind : String
    pub entry : r.RegistryEntry
    pub handler : r.Handler
    pub capability_options : Entries Value
    pub env_payloads : Option (Entries (Entries Value))
    pub identity_integration_id : Option String

  unfoldable pub none_if_empty : Entries (Entries Value) → Option (Entries (Entries Value))
  none_if_empty [] = none
  none_if_empty payloads = some payloads

  unfoldable pub with_handler :
      CapabilityBinding → String → r.RegistryEntry → Option r.Handler → Option ResolvedCapability
  with_handler b kind entry none = none
  with_handler b kind entry (some handler) = some (record {
    integration = b.integration;
    kind = kind;
    entry = entry;
    handler = handler;
    capability_options = b.capability_options;
    env_payloads = none_if_empty b.env_payloads;
    identity_integration_id = b.identity_integration_id;
  })

  unfoldable pub with_entry :
      CapabilityBinding → String → Option r.RegistryEntry → Option ResolvedCapability
  with_entry b kind none = none
  with_entry b kind (some entry) = with_handler b kind entry (r.get_capability entry kind)

  unfoldable pub resolved : CapabilityBinding → String → Option ResolvedCapability
  resolved b kind = with_entry b kind (r.get_plugin b.integration.plugin)

  unfoldable pub has_handler : Option r.Handler → Bool
  has_handler none = false
  has_handler (some handler) = true

  unfoldable pub declares : String → Option r.RegistryEntry → Bool
  declares kind none = false
  declares kind (some entry) = has_handler (r.get_capability entry kind)

  unfoldable pub loaded_and_enabled : List Registration → CapabilityBinding → String → Bool
  loaded_and_enabled rows b kind =
      not (b.integration.plugin == "")
      && declares kind (r.get_plugin b.integration.plugin)
      && is_plugin_enabled rows b.integration.plugin

  unfoldable pub usable :
      List Registration → String → List CapabilityBinding → List CapabilityBinding
  usable rows kind [] = []
  usable rows kind (b ∷ bs) =
      let rest = usable rows kind bs in if loaded_and_enabled rows b kind then b ∷ rest else rest

  unfoldable pub usable_or_refuse :
      List Registration → String → Option (List CapabilityBinding) → Reply (List CapabilityBinding)
  usable_or_refuse rows kind none = refuse 404 "Project not found"
  usable_or_refuse rows kind (some bs) = ok (usable rows kind bs)

  -- PluginUnavailableError, where the plugin is not found after all.
  unfoldable pub or_unavailable : Option ResolvedCapability → Reply ResolvedCapability
  or_unavailable none = break
  or_unavailable (some x) = ok x

  unfoldable pub resolve_chosen : String → Reply CapabilityBinding → Reply ResolvedCapability
  resolve_chosen kind (ok b) = or_unavailable (resolved b kind)
  resolve_chosen kind (refuse status detail) = refuse status detail
  resolve_chosen kind break = break

  unfoldable pub resolve_among :
      Option String → String → Reply (List CapabilityBinding) → Reply ResolvedCapability
  resolve_among source kind (ok bs) = resolve_chosen kind (choose source bs)
  resolve_among source kind (refuse status detail) = refuse status detail
  resolve_among source kind break = break

  unfoldable pub add_resolved :
      Option ResolvedCapability → List ResolvedCapability → List ResolvedCapability
  add_resolved none xs = xs
  add_resolved (some x) xs = x ∷ xs

  unfoldable pub resolve_each : String → List CapabilityBinding → List ResolvedCapability
  resolve_each kind [] = []
  resolve_each kind (b ∷ bs) = add_resolved (resolved b kind) (resolve_each kind bs)

  unfoldable pub resolve_every :
      String → Reply (List CapabilityBinding) → Reply (List ResolvedCapability)
  resolve_every kind (ok bs) = ok (resolve_each kind bs)
  resolve_every kind (refuse status detail) = refuse status detail
  resolve_every kind break = break

  module _ (c : Decoders) (rows : List Registration) (a : Answers) where
    unfoldable pub candidates : String → Reply (List CapabilityBinding)
    candidates kind = usable_or_refuse rows kind (effective_bindings c a kind)

    unfoldable pub resolve_capability : String → Option String → Reply ResolvedCapability
    resolve_capability kind source = resolve_among source kind (candidates kind)

    unfoldable pub resolve_all_capabilities : String → Reply (List ResolvedCapability)
    resolve_all_capabilities kind = resolve_every kind (candidates kind)
