-- ===== src/Auth/Tokens.antt =====
-- `authenticate_jwt`, and how a request's token reaches it or the API keys, in auth/permissions.py.
pub mod Admission
use imbi_api.Prelude.{
  ℕ, String, Bool, true, false, not, Option, none, some, List, [], ◌∷◌, ◌==◌, starts_with,
  if◌then◌else◌, Entries,
}
use imbi_api.Auth.Types.{
  User, ServiceAccount, AuthContext, jwt, client_credentials, Reply, ok, refuse, break,
  principal_name,
}
use imbi_api.Auth.Cache.{Cache}
use imbi_api.Auth.Directory.{
  Directory, Claims, Verified, verified, expired, invalid, load_principal_permissions,
  load_user_identities, present,
}
use imbi_api.Auth.Keys.{refuse_if, KeyState, authenticate_api_key}

-- claims.get(name) == text
unfoldable pub is_text : Option String → String → Bool
is_text none text = false
is_text (some t) text = t == text

unfoldable pub is_true : Option Bool → Bool
is_true none = false
is_true (some b) = b

-- The context of a token, over the permissions that were loaded.
unfoldable pub over_permissions :
    (List String → AuthContext) → Option (List String) → Reply AuthContext
over_permissions context none = break
over_permissions context (some perms) = ok (context perms)

unfoldable pub client_context : ServiceAccount → Option String → List String → AuthContext
client_context sa jti perms = record {
  user = none;
  service_account = some sa;
  session_id = jti;
  auth_method = client_credentials;
  permissions = perms;
  identities = [];
}

unfoldable pub jwt_context : User → Option String → Entries String → List String → AuthContext
jwt_context user jti identities perms = record {
  user = some user;
  service_account = none;
  session_id = jti;
  auth_method = jwt;
  permissions = perms;
  identities = identities;
}

module _ (d : Directory) where
  unfoldable pub client_account : String → Option String → Option ServiceAccount → Reply AuthContext
  client_account subject jti none = refuse 401 "Service account not found"
  client_account subject jti (some sa) =
      refuse_if (not sa.is_active) 401 "Service account is inactive" (
        over_permissions (client_context sa jti)
          (load_principal_permissions d "ServiceAccount" "slug" subject))

  unfoldable pub user_account : String → Option String → Option User → Reply AuthContext
  user_account subject jti none = refuse 401 "User not found"
  user_account subject jti (some user) =
      refuse_if (not user.is_active) 401 "User account is inactive" (
        over_permissions (jwt_context user jti (load_user_identities d user.id))
          (load_principal_permissions d "User" "email" subject))

  -- The principal of a token with a subject.
  unfoldable pub load_principal : Bool → String → Option String → Reply AuthContext
  load_principal true subject jti = client_account subject jti (d.service_account_of subject)
  load_principal false subject jti = user_account subject jti (d.user_of subject)

  unfoldable pub check_subject : Claims → Option String → Reply AuthContext
  check_subject claims none = refuse 401 "Token missing subject"
  check_subject claims (some subject) =
      refuse_if (subject == "") 401 "Token missing subject"
        (load_principal (is_text claims.auth_method "client_credentials") subject claims.jti)

  unfoldable pub check_claims : Verified → Reply AuthContext
  check_claims expired = refuse 401 "Token has expired"
  check_claims invalid = refuse 401 "Invalid token"
  check_claims (verified claims) =
      refuse_if (not (is_text claims.type "access")) 401 "Invalid token type" (
        refuse_if (is_true (d.revoked_token claims.jti)) 401 "Token revoked"
          (check_subject claims claims.sub))

  unfoldable pub authenticate_jwt : String → Reply AuthContext
  authenticate_jwt token = check_claims (d.verify_token token)

-- What a request changes: the state of the API keys, and the principals remembered for the log.
pub record Session : Type 0 where
  pub keys : KeyState
  pub remembered : Entries String

module _ (digest : String → String) (d : Directory) where
  unfoldable pub session_name : Option String → String
  session_name none = ""
  session_name (some id) = id

  unfoldable pub after_api_key :
      Entries String → Reply AuthContext × KeyState → Reply AuthContext × Session
  after_api_key remembered (ok ctx, keys) = (
    ok ctx,
    record {
      keys = keys;
      remembered = (session_name ctx.session_id, principal_name ctx) ∷ remembered;
    },
  )
  after_api_key remembered (answer, keys) =
      (answer, record { keys = keys; remembered = remembered })

  unfoldable pub authenticate_token : ℕ → ℕ → String → Session → Reply AuthContext × Session
  authenticate_token wall mono token st =
      if starts_with token "ik_"
      then after_api_key st.remembered (authenticate_api_key digest d wall mono token st.keys)
      else (authenticate_jwt d token, st)

  -- The credentials of the Authorization header.
  unfoldable pub get_current_user : ℕ → ℕ → Option String → Session → Reply AuthContext × Session
  get_current_user wall mono none st = (refuse 401 "Missing authentication credentials", st)
  get_current_user wall mono (some token) st = authenticate_token wall mono token st

  unfoldable pub token_or_refuse : ℕ → ℕ → Option String → Session → Reply AuthContext × Session
  token_or_refuse wall mono none st = (refuse 401 "Missing authentication credentials", st)
  token_or_refuse wall mono (some token) st =
      if token == ""
      then (refuse 401 "Missing authentication credentials", st)
      else authenticate_token wall mono token st

  unfoldable pub header_or_cookie : Option String → Option String → Option String
  header_or_cookie (some token) cookie = some token
  header_or_cookie none cookie = cookie

  unfoldable pub get_current_user_cookie_fallback :
      ℕ → ℕ → Option String → Option String → Session → Reply AuthContext × Session
  get_current_user_cookie_fallback wall mono credentials cookie st =
      token_or_refuse wall mono (header_or_cookie credentials cookie) st
