-- ===== src/Session/Totp.antt =====
-- imbi_api/auth/totp.py, and the queries of the login and MFA endpoints on a user's TOTP secret.
-- Encryption, one-time codes and password hashes are arguments.
use imbi_api.Prelude.{
  String, Bool, true, false, ◌&&◌, Option, none, some, List, [], ◌∷◌, ◌==◌, if◌then◌else◌, member,
}
use imbi_api.Prelude.Replies.{Reply, ok, refuse, break}
use imbi_api.Session.Graph.{TotpSecret}

pub record Checks : Type 0 where
  pub verify_password : String → String → Bool
  pub needs_rehash : String → Bool
  pub hash_password : String → String
  -- `none` is an exception or no result.
  pub decrypt : String → Option String
  -- pyotp.TOTP(secret, ...).verify(code, valid_window=1)
  pub verify_code : String → String → Bool
  pub dummy_password_hash : String

-- MATCH (:User {email})<-[:MFA_FOR]-(t:TOTPSecret), the first row.
unfoldable pub fetch_totp_secret : String → List TotpSecret → Option TotpSecret
fetch_totp_secret email [] = none
fetch_totp_secret email (t ∷ others) =
    let later = fetch_totp_secret email others in if t.email == email then some t else later

unfoldable pub decrypt_totp_secret : Option String → Reply String
decrypt_totp_secret none = refuse 500 "Failed to decrypt MFA secret"
decrypt_totp_secret (some secret) = ok secret

module _ (c : Checks) where
  -- The first stored hash that a backup code fits.
  unfoldable pub match_backup : String → List String → Option String
  match_backup code [] = none
  match_backup code (h ∷ hashes) =
      let later = match_backup code hashes in if c.verify_password code h then some h else later

  unfoldable pub backup_result : Option String → Bool × Option String
  backup_result none = (false, none)
  backup_result (some h) = (true, some h)

  unfoldable pub verify_with : List String → String → Reply String → Reply (Bool × Option String)
  verify_with hashes code (ok secret) =
      ok (
        if c.verify_code secret code
        then (true, none)
        else backup_result (match_backup code hashes))
  verify_with hashes code (refuse status detail) = refuse status detail
  verify_with hashes code break = break

  -- Whether a code is valid, and the stored hash if it is a backup code.
  unfoldable pub verify_totp_code : TotpSecret → String → Reply (Bool × Option String)
  verify_totp_code t code =
      verify_with t.backup_codes code (decrypt_totp_secret (c.decrypt t.secret))

-- [c IN codes WHERE c <> used]
unfoldable pub without_code : String → List String → List String
without_code used [] = []
without_code used (h ∷ hashes) =
    let kept = without_code used hashes in if h == used then kept else h ∷ kept

-- WHERE used IN t.backup_codes, for a user's secret.
unfoldable pub holds_code : String → String → TotpSecret → Bool
holds_code email used t = t.email == email && member used t.backup_codes

unfoldable pub any_holds : String → String → List TotpSecret → Bool
any_holds email used [] = false
any_holds email used (t ∷ others) =
    if holds_code email used t then true else any_holds email used others

-- SET on the secrets that hold the code.
unfoldable pub set_holding :
    (TotpSecret → TotpSecret) → String → String → List TotpSecret → List TotpSecret
set_holding f email used [] = []
set_holding f email used (t ∷ others) =
    (if holds_code email used t then f t else t) ∷ set_holding f email used others

-- The used code goes, if it is still there; `none` where the query returns no row.
unfoldable pub consume_code :
    (TotpSecret → TotpSecret) → String → String → List TotpSecret → Option (List TotpSecret)
consume_code f email used secrets =
    if any_holds email used secrets then some (set_holding f email used secrets) else none

unfoldable pub drop_code : String → TotpSecret → TotpSecret
drop_code used t = record t { backup_codes = without_code used t.backup_codes }

unfoldable pub set_secret : (TotpSecret → TotpSecret) → String → List TotpSecret → List TotpSecret
set_secret f email [] = []
set_secret f email (t ∷ others) = (if t.email == email then f t else t) ∷ set_secret f email others
