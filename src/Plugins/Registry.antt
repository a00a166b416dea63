-- ===== src/Plugins/Registry.antt =====
-- plugins/lifecycle.py: the PluginRegistration nodes, which an administrator enables.
use imbi_api.Prelude.{
  ◌≡◌, refl, sym, inl, inr, Bool-cases, arith, eq_iff, String, Bool, true, false, Option, none,
  some, List, [], ◌∷◌, ◌==◌, if◌then◌else◌,
}
use imbi_api.Plugins.Values.{Value, boolean, is_truthy}

-- (:PluginRegistration {slug, enabled}); a property that is missing is `none`.
pub record Registration : Type 0 where
  pub slug : String
  pub enabled : Option Value

-- coalesce(r.enabled, default)
unfoldable pub coalesce : Option Value → Value → Value
coalesce none default = default
coalesce (some v) default = v

unfoldable pub has_slug : String → List Registration → Bool
has_slug slug [] = false
has_slug slug (r ∷ others) =
    let later = has_slug slug others in if r.slug == slug then true else later

unfoldable pub set_all : (Option Value → Value) → String → List Registration → List Registration
set_all f slug [] = []
set_all f slug (r ∷ others) =
    (if r.slug == slug then record r { enabled = some (f r.enabled) } else r)
    ∷ set_all f slug others

-- MERGE (r:PluginRegistration {slug}) SET r.enabled = f(r.enabled)
unfoldable pub merge : (Option Value → Value) → String → List Registration → List Registration
merge f slug rows =
    if has_slug slug rows
    then set_all f slug rows
    else record { slug = slug; enabled = some (f none) } ∷ rows

-- The plugins that are loaded, each with whether its query raises, which is logged only.
unfoldable pub seed_registrations : List (String × Bool) → List Registration → List Registration
seed_registrations [] rows = rows
seed_registrations ((slug, true) ∷ entries) rows = seed_registrations entries rows
seed_registrations ((slug, false) ∷ entries) rows =
    seed_registrations entries (merge (λ enabled. coalesce enabled (boolean false)) slug rows)

unfoldable pub set_plugin_enabled : String → Bool → List Registration → List Registration
set_plugin_enabled slug enabled rows = merge (λ before. boolean enabled) slug rows

unfoldable pub enabled_or_false : Option Value → Bool
enabled_or_false none = false
enabled_or_false (some v) = is_truthy v

-- The first row.
unfoldable pub is_plugin_enabled : List Registration → String → Bool
is_plugin_enabled [] slug = false
is_plugin_enabled (r ∷ others) slug =
    let later = is_plugin_enabled others slug in
    if r.slug == slug then enabled_or_false r.enabled else later

enabled-coalesce : (v : Option Value) → is_truthy (coalesce v (boolean false)) ≡ enabled_or_false v
unfolding coalesce is_truthy enabled_or_false
enabled-coalesce none = refl
enabled-coalesce (some v) = refl

enabled-set_all :
    (slug asked : String) (rows : List Registration)
    → is_plugin_enabled (set_all (λ enabled. coalesce enabled (boolean false)) slug rows) asked
      ≡ is_plugin_enabled rows asked
unfolding is_plugin_enabled set_all enabled_or_false
enabled-set_all slug asked [] = refl
enabled-set_all slug asked (r ∷ others) =
    let ih = enabled-set_all slug asked others in
    let own = enabled-coalesce r.enabled in
    elim (Bool-cases (r.slug == slug)) [ inl e ↦ rw (e, ih, own) refl | inr e ↦ rw (e, ih) refl ]

enabled_without_slug :
    (slug : String) (rows : List Registration)
    → has_slug slug rows ≡ false
    → is_plugin_enabled rows slug ≡ false
unfolding is_plugin_enabled has_slug
enabled_without_slug slug [] h = refl
enabled_without_slug slug (r ∷ others) h =
    let ih = enabled_without_slug slug others in ground (arith, ih, h)

fresh :
    (slug asked : String) (rows : List Registration)
    → is_plugin_enabled rows slug ≡ false
    → (if slug == asked
        then enabled_or_false (some (coalesce none (boolean false)))
        else is_plugin_enabled rows asked)
      ≡ is_plugin_enabled rows asked
unfolding coalesce enabled_or_false is_truthy
fresh slug asked rows h = elim (Bool-cases (slug == asked)) [
  | inl e ↦ rw (e, sym ((eq_iff slug asked).0 e)) (sym h)
  | inr e ↦ rw e refl
]

enabled-merge :
    (slug asked : String) (rows : List Registration)
    → is_plugin_enabled (merge (λ enabled. coalesce enabled (boolean false)) slug rows) asked
      ≡ is_plugin_enabled rows asked
unfolding merge is_plugin_enabled
enabled-merge slug asked rows =
    let kept = enabled-set_all slug asked rows in
    elim (Bool-cases (has_slug slug rows)) [
      | inl e ↦ rw e kept
      | inr e ↦ rw e (fresh slug asked rows (enabled_without_slug slug rows e))
    ]

-- Loading plugins, at the start and again, enables none and disables none.
pub enabled-seed_registrations :
    (entries : List (String × Bool)) (rows : List Registration) (slug : String)
    → is_plugin_enabled (seed_registrations entries rows) slug ≡ is_plugin_enabled rows slug
unfolding seed_registrations
enabled-seed_registrations [] rows slug = refl
enabled-seed_registrations ((loaded, true) ∷ entries) rows slug =
    enabled-seed_registrations entries rows slug
enabled-seed_registrations ((loaded, false) ∷ entries) rows slug =
    rw
      (enabled-seed_registrations entries
        (merge (λ enabled. coalesce enabled (boolean false)) loaded rows) slug)
      (enabled-merge loaded slug rows)
