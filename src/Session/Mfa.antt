-- ===== src/Session/Mfa.antt =====
-- endpoints/mfa.py: status, setup, verification and removal of a user's second factor.
pub mod Proofs
use imbi_api.Prelude.{
  ℕ, String, Bool, true, false, not, ◌&&◌, Option, none, some, List, [], ◌∷◌, ◌==◌, if◌then◌else◌,
  map, length,
}
use imbi_api.Prelude.Replies.{Reply, ok, refuse, break}
use imbi_api.Auth.Directory.{present}
use imbi_api.Auth.Keys.{refuse_if}
use imbi_api.Session.Graph.{Graph, User, TotpSecret}
use imbi_api.Session.Totp.{
  Checks, fetch_totp_secret, verify_totp_code, consume_code, drop_code, set_secret,
}

pub record Status : Type 0 where
  pub enabled : Bool
  pub backup_codes_remaining : ℕ

unfoldable pub status_of : Option TotpSecret → Status
status_of none = record { enabled = false; backup_codes_remaining = 0 }
status_of (some t) =
    if not t.enabled
    then record { enabled = false; backup_codes_remaining = 0 }
    else record { enabled = true; backup_codes_remaining = length t.backup_codes }

unfoldable pub get_mfa_status : String → Graph → Status
get_mfa_status email g = status_of (fetch_totp_secret email g.totp_secrets)

-- DETACH DELETE of a user's secrets.
unfoldable pub without_secret : String → List TotpSecret → List TotpSecret
without_secret email [] = []
without_secret email (t ∷ others) =
    let kept = without_secret email others in if t.email == email then kept else t ∷ kept

-- What setup draws: the secret as it is stored, and ten backup codes.
pub record Drawn : Type 0 where
  pub encrypted_secret : String
  pub codes : List String

module _ (c : Checks) where
  unfoldable pub setup_mfa : Drawn → String → Graph → Graph
  setup_mfa drawn email g = record g {
    totp_secrets =
        record {
          email = email;
          secret = drawn.encrypted_secret;
          enabled = false;
          last_used = none;
          backup_codes = map c.hash_password drawn.codes;
        }
        ∷ without_secret email g.totp_secrets;
  }

  unfoldable pub enable : ℕ → TotpSecret → TotpSecret
  enable now t = record t { enabled = true; last_used = some now }

  unfoldable pub enable_and_drop : ℕ → String → TotpSecret → TotpSecret
  enable_and_drop now used t = enable now (drop_code used t)

  unfoldable pub enabled_or_refuse : Graph → Option (List TotpSecret) → Reply Unit × Graph
  enabled_or_refuse g none = (refuse 401 "Invalid MFA code", g)
  enabled_or_refuse g (some secrets) = (ok tt, record g { totp_secrets = secrets })

  -- The MFA of the user is enabled, and a backup code that was used goes.
  unfoldable pub enable_by : ℕ → String → Graph → Reply (Bool × Option String) → Reply Unit × Graph
  enable_by now email g (ok (false, matched)) = (refuse 401 "Invalid MFA code", g)
  enable_by now email g (ok (true, some used)) =
      enabled_or_refuse g (consume_code (enable_and_drop now used) email used g.totp_secrets)
  enable_by now email g (ok (true, none)) =
      (ok tt, record g { totp_secrets = set_secret (enable now) email g.totp_secrets })
  enable_by now email g (refuse status detail) = (refuse status detail, g)
  enable_by now email g break = (break, g)

  module _ (between : Graph → Graph) where
    unfoldable pub verify_secret :
        ℕ → String → String → Graph → Option TotpSecret → Reply Unit × Graph
    verify_secret now email code g none = (refuse 404 "MFA not setup for this user", g)
    verify_secret now email code g (some t) =
        enable_by now email (between g) (verify_totp_code c t code)

    unfoldable pub verify_and_enable_mfa : ℕ → String → String → Graph → Reply Unit × Graph
    verify_and_enable_mfa now email code g =
        verify_secret now email code g (fetch_totp_secret email g.totp_secrets)

  -- The proof of identity that disabling asks for: the password, and a code of a user without one.
  unfoldable pub proof_by_password : String → Option String → Reply Unit
  proof_by_password hash none = refuse 401 "Password required to disable MFA"
  proof_by_password hash (some password) =
      refuse_if (password == "") 401 "Password required to disable MFA"
        (refuse_if (not (c.verify_password password hash)) 401 "Invalid password" (ok tt))

  unfoldable pub code_is_valid : Reply (Bool × Option String) → Reply Unit
  code_is_valid (ok (valid, matched)) = refuse_if (not valid) 401 "Invalid MFA code" (ok tt)
  code_is_valid (refuse status detail) = refuse status detail
  code_is_valid break = break

  unfoldable pub proof_by_code : TotpSecret → Option String → Reply Unit
  proof_by_code t none = refuse 401 "MFA code required to disable MFA (OAuth-only account)"
  proof_by_code t (some code) =
      refuse_if (code == "") 401 "MFA code required to disable MFA (OAuth-only account)"
        (code_is_valid (verify_totp_code c t code))

  -- if user.password_hash
  unfoldable pub proof_of_identity :
      Option String → Option String → Option String → TotpSecret → Reply Unit
  proof_of_identity none password code t = proof_by_code t code
  proof_of_identity (some hash) password code t =
      if hash == "" then proof_by_code t code else proof_by_password hash password

  unfoldable pub delete_secret : String → Graph → Reply Unit → Reply Unit × Graph
  delete_secret email g (ok done) =
      (ok done, record g { totp_secrets = without_secret email g.totp_secrets })
  delete_secret email g (refuse status detail) = (refuse status detail, g)
  delete_secret email g break = (break, g)

  unfoldable pub disable_secret :
      User → Option String → Option String → Graph → Option TotpSecret → Reply Unit × Graph
  disable_secret u password code g none = (refuse 404 "MFA not enabled", g)
  disable_secret u password code g (some t) =
      if not t.enabled
      then (refuse 404 "MFA not enabled", g)
      else delete_secret u.email g (proof_of_identity u.password_hash password code t)

  unfoldable pub disable_mfa : User → Option String → Option String → Graph → Reply Unit × Graph
  disable_mfa u password code g =
      disable_secret u password code g (fetch_totp_secret u.email g.totp_secrets)
