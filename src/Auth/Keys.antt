-- ===== src/Auth/Keys.antt =====
-- `authenticate_api_key` of auth/permissions.py. SHA-256 is an argument; the wall clock decides
-- whether a key has expired, the monotonic clock whether a cached context has.
pub mod Revocation
pub mod Checks
use imbi_api.Prelude.{
  ℕ, String, Bool, true, false, not, Option, none, some, List, [], ◌∷◌, ◌==◌, if◌then◌else◌, ltb,
  member, Entries,
}
use imbi_api.Auth.Types.{User, ServiceAccount, AuthContext, api_key, Reply, ok, refuse, break}
use imbi_api.Auth.Cache.{Cache, cache_lookup, cache_store}
use imbi_api.Auth.Directory.{
  Directory, KeyData, KeyRow, load_principal_permissions, load_user_identities,
}
use imbi_api.Auth.KeyFormat.{parse_key, key_name}

-- if condition: raise HTTPException(...)
abbrev pub refuse_if : {A : Type 0} → Bool → ℕ → String → Reply A → Reply A
refuse_if true code detail rest = refuse code detail
refuse_if false code detail rest = rest

unfoldable pub is_expired : Option ℕ → ℕ → Bool
is_expired none now = false
is_expired (some expires_at) now = ltb expires_at now

-- all_perms.intersection(set(scopes))
unfoldable pub intersection : List String → List String → List String
intersection [] scopes = []
intersection (p ∷ all) scopes =
    let rest = intersection all scopes in if member p scopes then p ∷ rest else rest

unfoldable pub filtered : List String → List String → List String
filtered all [] = all
filtered all (s ∷ scopes) = intersection all (s ∷ scopes)

unfoldable pub service_account_context : ServiceAccount → String → List String → AuthContext
service_account_context sa key_id permissions = record {
  user = none;
  service_account = some sa;
  session_id = some key_id;
  auth_method = api_key;
  permissions = permissions;
  identities = [];
}

unfoldable pub user_context : User → String → List String → Entries String → AuthContext
user_context user key_id permissions identities = record {
  user = some user;
  service_account = none;
  session_id = some key_id;
  auth_method = api_key;
  permissions = permissions;
  identities = identities;
}

-- The context over the permissions that were loaded.
unfoldable pub with_permissions :
    (List String → AuthContext) → List String → Option (List String) → Reply AuthContext
with_permissions context scopes none = break
with_permissions context scopes (some all) = ok (context (filtered all scopes))

module _ (d : Directory) where
  -- The service account, if the key has one, and else the user.
  unfoldable pub resolve_owner :
      String → List String → Option User → Option ServiceAccount → Reply AuthContext
  resolve_owner key_id scopes user (some sa) =
      refuse_if (not sa.is_active) 401 "Service account is inactive" (
        with_permissions (service_account_context sa key_id) scopes
          (load_principal_permissions d "ServiceAccount" "slug" sa.slug))
  resolve_owner key_id scopes (some user) none =
      refuse_if (not user.is_active) 401 "User account is inactive" (
        with_permissions
          (λ permissions. user_context user key_id permissions (load_user_identities d user.id))
          scopes (load_principal_permissions d "User" "email" user.email))
  resolve_owner key_id scopes none none = break

  -- if not user_data and not sa_data
  unfoldable pub is_orphan : Option User → Option ServiceAccount → Bool
  is_orphan none none = true
  is_orphan user sa = false

  unfoldable pub check_row : ℕ → String → String → Option KeyRow → Reply AuthContext
  check_row now key_id secret none = refuse 401 "Invalid or revoked API key"
  check_row now key_id secret (some row) =
      refuse_if (is_orphan row.user row.service_account) 401 "API key owner not found" (
        refuse_if row.key.revoked 401 "Invalid or revoked API key" (
          refuse_if (is_expired row.key.expires_at now) 401 "API key expired" (
            refuse_if (not (d.verify_password secret row.key.key_hash)) 401
              "Invalid or revoked API key"
              (resolve_owner key_id row.key.scopes row.user row.service_account))))

-- What authentication by key changes: the cache, and the keys whose last use was stamped.
pub record KeyState : Type 0 where
  pub cache : Cache
  pub stamped : List String

module _ (digest : String → String) (d : Directory) where
  -- Stamp and store, after all validation.
  unfoldable pub after_check :
      ℕ → String → String → KeyState → Reply AuthContext → Reply AuthContext × KeyState
  after_check mono key key_id st (ok ctx) = (
    ok ctx,
    record { cache = cache_store (digest key) ctx mono st.cache; stamped = key_id ∷ st.stamped },
  )
  after_check mono key key_id st answer = (answer, st)

  unfoldable pub after_lookup :
      ℕ
      → ℕ
      → String
      → String
      → String
      → List String
      → Option AuthContext × Cache
      → Reply AuthContext × KeyState
  after_lookup wall mono key key_id secret stamped (some ctx, cache) =
      (ok ctx, record { cache = cache; stamped = stamped })
  after_lookup wall mono key key_id secret stamped (none, cache) =
      after_check mono key key_id (record { cache = cache; stamped = stamped })
        (check_row d wall key_id secret (d.key_row key_id))

  unfoldable pub after_parse :
      ℕ → ℕ → String → KeyState → Option (String × String) → Reply AuthContext × KeyState
  after_parse wall mono key st none = (refuse 401 "Invalid API key format", st)
  after_parse wall mono key st (some (id, secret)) =
      after_lookup wall mono key (key_name id) secret st.stamped
        (cache_lookup (digest key) mono st.cache)

  unfoldable pub authenticate_api_key : ℕ → ℕ → String → KeyState → Reply AuthContext × KeyState
  authenticate_api_key wall mono key st = after_parse wall mono key st (parse_key key)
