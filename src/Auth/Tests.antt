-- ===== src/Auth/Tests.antt =====
-- Authentication against a small directory.
use Prim.Native.String.{◌++◌}
use imbi_api.Prelude.{
  ◌≡◌, ◌↔◌, ◌⊎◌, refl, String, Bool, true, false, ◌&&◌, none, some, List, [], ◌∷◌, arith, member,
  subst, sym,
}
use imbi_api.Auth.Types.{User, ServiceAccount, AuthContext, api_key, ok, is_admin}
use imbi_api.Auth.Cache.{Cache}
use imbi_api.Auth.Directory.{Directory, KeyRow, verified, items}
use imbi_api.Auth.KeyFormat.{parse_key, full_key, parse_key-full_key, is_underscore}
use imbi_api.Prelude.Splits.{split_once, first_of, add_char}
use imbi_api.Auth.Keys.{KeyState, authenticate_api_key, check_row, filtered, user_context}
use imbi_api.Auth.Keys.Checks.{IsAdmitted, check_row-IsAdmitted, allows}
use imbi_api.Auth.Keys.Revocation.{
  HasRevoked, IsRefused, Before, start, After, revoked, revoked_key-IsRefused,
}
use imbi_api.Auth.Tokens.{Session, authenticate_jwt}
use imbi_api.Auth.Tokens.Admission.{HasClaims, authenticate_jwt-HasClaims}
use imbi_api.Auth.Access.{
  check_permission, check_permission_key, check_access, check_access_iff, HasGrant,
}

-- Opens the text functions.
texts_open : Unit {0}
unfolding split_once first_of add_char
texts_open = tt

abbrev ann : User
ann = record { id = "u1"; email = "ann@example.org"; is_admin = false; is_active = true }

abbrev robot : ServiceAccount
robot = record { slug = "robot"; is_active = true }

abbrev row_of : Bool → KeyRow
row_of gone = record {
  key = record {
    revoked = gone;
    expires_at = some 500;
    key_hash = "hash";
    scopes = "project:read" ∷ [];
  };
  user = some ann;
  service_account = none;
}

abbrev directory : Bool → Directory
directory gone = record {
  verify_token = λ token. verified (record {
    type = some "access";
    jti = some "t1";
    sub = some "robot";
    auth_method = some "client_credentials";
  });
  revoked_token = λ jti. none;
  service_account_of = λ slug. some robot;
  user_of = λ email. some ann;
  grants = λ label prop value. items (some "project:read" ∷ some "project:write" ∷ none ∷ []);
  connections = λ id. none;
  key_row = λ key_id. some (row_of gone);
  verify_password = λ secret hash. true;
  known_permissions = some "project:read" ∷ none ∷ some "" ∷ [];
  can_access = λ email label slug action. some true;
}

no_underscore : split_once is_underscore "ab12" ≡ none
unfolding texts_open
no_underscore = refl

abbrev ctx_of : List String → AuthContext
ctx_of perms = record {
  user = some ann;
  service_account = none;
  session_id = some "ik_ab12";
  auth_method = api_key;
  permissions = perms;
  identities = [];
}

abbrev three : Cache
three = ("a", (60, ctx_of [])) ∷ ("b", (70, ctx_of [])) ∷ ("c", (80, ctx_of [])) ∷ []

whole : String → String
whole key = key

abbrev new : KeyState
new = record { cache = []; stamped = [] }

-- One call before the revocation at 100.
abbrev once : KeyState
once = (authenticate_api_key whole (directory false) 100 100 (full_key "ab12" "s_e") new).1

history : After whole (full_key "ab12" "s_e") 100 once
history =
    revoked (Before.call (directory false) 100 100 (full_key "ab12" "s_e") (omega arith) start)

key_parts : parse_key (full_key "ab12" "s_e") ≡ some ("ab12", "s_e")
unfolding split_once first_of add_char
key_parts = parse_key-full_key "ab12" "s_e" refl

gone : HasRevoked (directory true) (parse_key (full_key "ab12" "s_e"))
gone = subst (HasRevoked (directory true)) (sym key_parts) refl

revoked_key-IsRefused_example :
    IsRefused (authenticate_api_key whole (directory true) 170 170 (full_key "ab12" "s_e") once).0
revoked_key-IsRefused_example =
    revoked_key-IsRefused whole (full_key "ab12" "s_e") 100 once (directory true) 170 170 history
      gone (omega arith)

check_row-IsAdmitted_example :
    (check_row (directory false) 400 "ik_ab12" "s_e" (some (row_of false))
      ≡ ok (ctx_of ("project:read" ∷ [])))
    ↔ IsAdmitted
        (directory false)
        400
        "ik_ab12"
        "s_e"
        (some (row_of false))
        (ctx_of ("project:read" ∷ []))
check_row-IsAdmitted_example =
    check_row-IsAdmitted (directory false) 400 "ik_ab12" "s_e" (some (row_of false))
      (ctx_of ("project:read" ∷ []))

authenticate_jwt-HasClaims_example :
    (authenticate_jwt (directory false) "token" ≡ ok (ctx_of []))
    ↔ HasClaims (directory false) ((directory false).verify_token "token") (ctx_of [])
authenticate_jwt-HasClaims_example =
    authenticate_jwt-HasClaims (directory false) "token" (ctx_of [])

abbrev admin : User
admin = record ann { is_admin = true }

check_permission_key_example :
    (check_permission "role:write"
        (user_context admin "ik_ab12" (filtered ("project:read" ∷ []) ("project:read" ∷ [])) [])
      ≡ ok (user_context admin "ik_ab12" (filtered ("project:read" ∷ []) ("project:read" ∷ [])) []))
    ↔ ((admin.is_admin ≡ true)
        ⊎ ((member "role:write" ("project:read" ∷ []) && allows ("project:read" ∷ []) "role:write")
            ≡ true))
check_permission_key_example =
    check_permission_key "role:write" admin "ik_ab12" ("project:read" ∷ []) ("project:read" ∷ []) []

abbrev client : AuthContext
client = record (ctx_of ("project:read" ∷ [])) { user = none; service_account = some robot }

check_access_iff_example :
    (check_access (directory false) "project" "read" "p1" client ≡ ok client) ↔ (
      (is_admin client ≡ true)
      ⊎ ((member ("project" ++ (":" ++ "read")) client.permissions ≡ true)
          ⊎ HasGrant (directory false) "project" "read" "p1" client.user))
check_access_iff_example = check_access_iff (directory false) "project" "read" "p1" client

abbrev asking : Session
asking = record { keys = new; remembered = [] }
