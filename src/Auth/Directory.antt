-- ===== src/Auth/Directory.antt =====
-- What permissions.py asks of the graph database, of imbi_common's token check and of the password
-- hash, and its own loading functions over the answers.
use imbi_api.Prelude.{
  ℕ, String, Bool, false, ◌&&◌, ◌||◌, not, Option, none, some, List, [], ◌∷◌, Entries, ◌==◌,
  if◌then◌else◌,
}
use imbi_api.Auth.Types.{User, ServiceAccount}

-- The claims that the code reads.
pub record Claims : Type 0 where
  pub type : Option String
  pub jti : Option String
  pub sub : Option String
  pub auth_method : Option String

-- core.verify_token: claims, or one of the two exceptions.
pub data Verified : Type 0 where
  verified : Claims → Verified
  expired invalid : Verified

-- The one row of a permission query; an item that is not a text is `none`.
pub data Granted : Type 0 where
  no_rows not_a_list : Granted
  items : List (Option String) → Granted

pub record KeyData : Type 0 where
  pub revoked : Bool
  pub expires_at : Option ℕ
  pub key_hash : String
  -- As models.parse_scopes reads them.
  pub scopes : List String

pub record KeyRow : Type 0 where
  pub key : KeyData
  pub user : Option User
  pub service_account : Option ServiceAccount

pub record Directory : Type 0 where
  pub verify_token : String → Verified
  -- TokenMetadata.revoked by the token's id; `none` where there is no row.
  pub revoked_token : Option String → Option Bool
  pub service_account_of : String → Option ServiceAccount
  pub user_of : String → Option User
  pub grants : String → String → String → Granted
  -- `none` is an exception.
  pub connections : String → Option (List (Option String × Option String))
  pub key_row : String → Option KeyRow
  pub verify_password : String → String → Bool
  pub known_permissions : List (Option String)
  -- The answer of the CAN_ACCESS query; `none` where there is no row.
  pub can_access : String → String → String → String → Option Bool

-- The texts of a list.
unfoldable pub texts : List (Option String) → List String
texts [] = []
texts (none ∷ others) = texts others
texts (some t ∷ others) = t ∷ texts others

unfoldable pub names_of : Granted → List String
names_of no_rows = []
names_of not_a_list = []
names_of (items names) = texts names

-- _ALLOWED_PRINCIPAL_SELECTORS
unfoldable pub is_selector : String → String → Bool
is_selector label match_prop =
    (label == "User" && match_prop == "email")
    || (label == "ServiceAccount" && match_prop == "slug")

unfoldable pub present : Option String → Bool
present none = false
present (some t) = not (t == "")

unfoldable pub both : Option String → Option String → Entries String → Entries String
both (some slug) (some subject) later =
    if present (some slug) && present (some subject) then (slug, subject) ∷ later else later
both slug subject later = later

unfoldable pub identities_of : List (Option String × Option String) → Entries String
identities_of [] = []
identities_of ((slug, subject) ∷ rows) = both slug subject (identities_of rows)

unfoldable pub identities_or_none : Option (List (Option String × Option String)) → Entries String
identities_or_none none = []
identities_or_none (some rows) = identities_of rows

module _ (d : Directory) where
  -- `none` is the ValueError.
  unfoldable pub load_principal_permissions : String → String → String → Option (List String)
  load_principal_permissions label match_prop value =
      if is_selector label match_prop
      then some (names_of (d.grants label match_prop value))
      else none

  unfoldable pub load_user_identities : String → Entries String
  load_user_identities user_id = identities_or_none (d.connections user_id)

  unfoldable pub check_resource_permission : String → String → String → String → Bool
  check_resource_permission email label slug action = elim (d.can_access email label slug action) [
    | none ↦ false
    | some allowed ↦ allowed
  ]
