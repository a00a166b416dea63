-- ===== src/Auth/Types.antt =====
-- The values of auth/permissions.py. Times are in seconds, a set of names is a list.
pub use imbi_api.Prelude.Replies.{Reply, ok, refuse, break}
use imbi_api.Prelude.{
  String, Bool, false, Option, none, some, List, [], ◌∷◌, Entries, ◌==◌, if◌then◌else◌,
}

pub record User : Type 0 where
  pub id : String
  pub email : String
  pub is_admin : Bool
  pub is_active : Bool

pub record ServiceAccount : Type 0 where
  pub slug : String
  pub is_active : Bool

pub data AuthMethod : Type 0 where
  jwt api_key client_credentials : AuthMethod

pub record AuthContext : Type 0 where
  pub user : Option User
  pub service_account : Option ServiceAccount
  pub session_id : Option String
  pub auth_method : AuthMethod
  pub permissions : List String
  -- A plugin's slug with the subject there.
  pub identities : Entries String

unfoldable pub identity_for : Entries String → String → Option String
identity_for [] plugin_slug = none
identity_for ((slug, subject) ∷ others) plugin_slug =
    let later = identity_for others plugin_slug in
    if slug == plugin_slug then some subject else later

unfoldable pub name_of : Option User → Option ServiceAccount → String
name_of (some u) sa = u.email
name_of none (some sa) = sa.slug
name_of none none = "unknown"

unfoldable pub principal_name : AuthContext → String
principal_name ctx = name_of ctx.user ctx.service_account

unfoldable pub admin_of : Option User → Bool
admin_of none = false
admin_of (some u) = u.is_admin

unfoldable pub is_admin : AuthContext → Bool
is_admin ctx = admin_of ctx.user

unfoldable pub user_or_refuse : Option User → Reply User
user_or_refuse none = refuse 403 "This endpoint requires user authentication"
user_or_refuse (some u) = ok u

unfoldable pub require_user : AuthContext → Reply User
require_user ctx = user_or_refuse ctx.user
