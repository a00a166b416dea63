-- ===== src/Session/FactorTests.antt =====
-- A user with a password and an enabled second factor.
use imbi_api.Prelude.{
  ◌≡◌, ◌≢◌, ◌⊎◌, if◌then◌else◌, refl, String, true, false, ◌&&◌, ◌||◌, none, some, List, [], ◌∷◌,
  ◌==◌,
}
use imbi_api.Prelude.Replies.{ok, refuse}
use imbi_api.Auth.Directory.{present}
use imbi_api.Session.Graph.{Graph, User, TotpSecret, find_user}
use imbi_api.Session.Membership.{
  ensure_user_membership, count_memberships, assign, assigned, create_membership,
  resolve_default_role, resolve_target_org, has_role, has_user, merge_membership, has_membership,
  same_membership,
}
use imbi_api.Session.Issue.{
  AuthSettings, Moment, Issued, issue_token_pair, persist, create_rows, access_row, refresh_row,
  after_issue, sign, meta_of, family_or_new, count_principals, count_users, count_service_accounts,
}
use imbi_api.Session.Totp.{
  Checks, fetch_totp_secret, decrypt_totp_secret, match_backup, backup_result, verify_with,
  verify_totp_code, without_code, holds_code, any_holds, set_holding, consume_code, drop_code,
  set_secret,
}
use imbi_api.Session.Login.{
  eligible, hash_or, hash_to_check, merge_user, set_user, rehashed, needs_merge, rehash,
  user_or_refuse, check_password, stamp_secret, use_backup, use_code, check_code, check_mfa,
  after_pair, after_mfa, after_rehash, after_password, login,
}
use imbi_api.Session.Login.Factors.{login-IsProven, IsValidCode}
use imbi_api.Session.Login.Backup.{backup_code_once, Fails, IsValidWithout}
use imbi_api.Session.Mfa.{
  setup_mfa, get_mfa_status, status_of, without_secret, proof_by_password, code_is_valid,
  proof_by_code, proof_of_identity, delete_secret, disable_secret, disable_mfa,
}
use imbi_api.Session.Mfa.Proofs.{check_mfa-setup_mfa, disable_mfa-HasProof, HasProof}

-- Opens the functions that are run below.
login_open : Unit {0}
unfolding find_user present fetch_totp_secret decrypt_totp_secret match_backup backup_result
    verify_with verify_totp_code without_code holds_code any_holds set_holding consume_code
    drop_code set_secret eligible hash_or hash_to_check merge_user set_user rehashed needs_merge
    rehash user_or_refuse check_password stamp_secret use_backup use_code check_code check_mfa
    after_pair after_mfa after_rehash after_password login
login_open = tt

issue_open : Unit {0}
unfolding login_open ensure_user_membership count_memberships assign assigned create_membership
    resolve_default_role resolve_target_org has_role has_user merge_membership has_membership
    same_membership issue_token_pair persist create_rows access_row refresh_row after_issue sign
    meta_of family_or_new count_principals count_users count_service_accounts
issue_open = tt

mfa_open : Unit {0}
unfolding login_open get_mfa_status status_of without_secret proof_by_password code_is_valid
    proof_by_code proof_of_identity delete_secret disable_secret disable_mfa
mfa_open = tt

abbrev checks : Checks
checks = record {
  verify_password =
      λ secret hash. (secret == "pw" && hash == "hash") || (secret == "b1" && hash == "h1");
  needs_rehash = λ hash. false;
  hash_password = λ secret. secret;
  decrypt = λ secret. some secret;
  verify_code = λ secret code. code == "123456";
  dummy_password_hash = "dummy";
}

abbrev eve : User
eve = record {
  email = "eve@example.org";
  is_active = true;
  is_service_account = false;
  password_hash = some "hash";
  last_login = none;
}

abbrev secret_of : List String → TotpSecret
secret_of codes = record {
  email = "eve@example.org";
  secret = "s";
  enabled = true;
  last_used = none;
  backup_codes = codes;
}

abbrev graph_of : List String → Graph
graph_of codes = record {
  users = eve ∷ [];
  service_accounts = [];
  tokens = [];
  organizations = "default" ∷ [];
  roles = record { slug = "reader"; is_default = true } ∷ [];
  member_of = [];
  totp_secrets = secret_of codes ∷ [];
  sessions = [];
}

abbrev alone : Graph → Graph
alone g = g

abbrev settings : AuthSettings
settings = record { access_token_expire_seconds = 60; refresh_token_expire_seconds = 600 }

abbrev moment : Moment
moment = record {
  now = 7;
  mint = λ id claims. record {
    access_token = "at";
    refresh_token = "rt";
    access_jti = "a";
    refresh_jti = "r";
    new_family = "f";
  };
  membership_raises = false;
}

abbrev issued : Issued
issued = record {
  access_token = "at";
  refresh_token = "rt";
  meta = record {
    access_jti = "a";
    refresh_jti = "r";
    family_id = "f";
    issued_at = 7;
    access_expires_at = 60000007;
    refresh_expires_at = 600000007;
  };
}

login-IsProven_example :
    (u : User) × (find_user "eve@example.org" (eve ∷ []) ≡ some u)
    × (eligible (some u) ≡ true)
    × (checks.verify_password "pw" (hash_to_check "dummy" true (some u)) ≡ true)
    × ((t : TotpSecret)
        → fetch_totp_secret u.email (secret_of [] ∷ []) ≡ some t
        → t.enabled ≡ true
        → IsValidCode checks t (some "123456"))
unfolding issue_open
login-IsProven_example =
    login-IsProven checks alone settings moment "eve@example.org" "pw" (some "123456") (graph_of [])
      issued refl

-- The second login has read the secret after the code was used, and brings a one-time code.
backup_code_once_example :
    (Fails checks
        (check_code checks (λ x. graph_of []) 9 eve (graph_of []) (secret_of []) (some "123456"))
      ⊎ IsValidWithout checks "h1" (verify_totp_code checks (secret_of []) "123456"))
    × ((check_code checks
          (λ x. graph_of [])
          9
          eve
          (graph_of [])
          (secret_of ("h1" ∷ []))
          (some "b1")).0
        ≡ refuse 401 "Invalid MFA code")
unfolding login_open
backup_code_once_example =
    backup_code_once checks alone 8 9 eve eve (graph_of ("h1" ∷ [])) (graph_of []) (graph_of [])
      (graph_of []) (secret_of ("h1" ∷ [])) (secret_of []) "b1" "123456" "h1" refl refl refl

check_mfa-setup_mfa_example :
    let h =
      setup_mfa checks
        (record { encrypted_secret = "x"; codes = [] })
        "eve@example.org"
        (graph_of []) in
    check_mfa checks alone 9 eve none h (fetch_totp_secret "eve@example.org" h.totp_secrets)
    ≡ (ok eve, h)
check_mfa-setup_mfa_example =
    check_mfa-setup_mfa checks alone 9 (record { encrypted_secret = "x"; codes = [] }) eve none
      (graph_of [])

disable_mfa-HasProof_example :
    let r = disable_mfa checks eve (some "pw") none (graph_of []) in
    ((r.0 ≡ ok tt)
      × ((get_mfa_status "eve@example.org" r.1).enabled ≡ false)
      × ((other : String)
          → fetch_totp_secret other r.1.totp_secrets ≡ (
              if "eve@example.org" == other
              then none
              else fetch_totp_secret other (secret_of [] ∷ [])))
      × (t : TotpSecret) × (fetch_totp_secret "eve@example.org" (secret_of [] ∷ []) ≡ some t)
      × (t.enabled ≡ true)
      × HasProof checks (some "hash") (some "pw") none t)
    ⊎ ((r.0 ≢ ok tt) × (r.1 ≡ graph_of []))
disable_mfa-HasProof_example = disable_mfa-HasProof checks eve (some "pw") none (graph_of [])
