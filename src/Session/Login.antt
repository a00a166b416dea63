-- ===== src/Session/Login.antt =====
-- `login` of endpoints/auth.py. What other requests do between the reading of a user's TOTP secret
-- and the removal of a backup code is an argument.
pub mod Factors
pub mod Backup
use imbi_api.Prelude.{
  ℕ, String, Bool, true, false, not, ◌&&◌, ◌||◌, Option, none, some, List, [], ◌∷◌, ◌==◌,
  if◌then◌else◌,
}
use imbi_api.Prelude.Replies.{Reply, ok, refuse, break}
use imbi_api.Auth.Directory.{present}
use imbi_api.Auth.Keys.{refuse_if}
use imbi_api.Session.Graph.{Graph, User, TotpSecret, PrincipalType, find_user}
use imbi_api.Session.Issue.{AuthSettings, Moment, Issued, issue_token_pair}
use imbi_api.Session.Totp.{
  Checks, fetch_totp_secret, verify_totp_code, consume_code, drop_code, set_secret,
}

-- user and user.is_active and not user.is_service_account and user.password_hash
unfoldable pub eligible : Option User → Bool
eligible none = false
eligible (some u) = u.is_active && not u.is_service_account && present u.password_hash

unfoldable pub hash_or : String → Option String → String
hash_or dummy none = dummy
hash_or dummy (some h) = h

unfoldable pub hash_to_check : String → Bool → Option User → String
hash_to_check dummy true (some u) = hash_or dummy u.password_hash
hash_to_check dummy _ _ = dummy

-- db.merge(user, match_on=['email'])
unfoldable pub merge_user : User → List User → List User
merge_user u [] = u ∷ []
merge_user u (v ∷ users) =
    let later = merge_user u users in if v.email == u.email then u ∷ users else v ∷ later

unfoldable pub set_user : User → Graph → Graph
set_user u g = record g { users = merge_user u g.users }

module _ (c : Checks) where
  unfoldable pub rehashed : String → Option String → Option String
  rehashed password none = none
  rehashed password (some h) = if c.needs_rehash h then some (c.hash_password password) else some h

  unfoldable pub needs_merge : Option String → Bool
  needs_merge none = false
  needs_merge (some h) = c.needs_rehash h

  unfoldable pub rehash : String → User → Graph → User × Graph
  rehash password u g =
      let new = record u { password_hash = rehashed password u.password_hash } in
      (new, if needs_merge u.password_hash then set_user new g else g)

  unfoldable pub user_or_refuse : Option User → Reply User
  user_or_refuse none = refuse 401 "Invalid credentials"
  user_or_refuse (some u) = ok u

  -- The password is always verified, against a hash of no one where the user may not sign in.
  unfoldable pub check_password : String → Option User → Reply User
  check_password password u =
      let valid = c.verify_password password (hash_to_check c.dummy_password_hash (eligible u) u) in
      refuse_if (not (eligible u) || not valid) 401 "Invalid credentials" (user_or_refuse u)

  unfoldable pub stamp_secret : ℕ → TotpSecret → TotpSecret
  stamp_secret now t = record t { last_used = some now }

  -- The user with the state that a code leaves, or the refusal.
  unfoldable pub use_backup : User → Graph → Option (List TotpSecret) → Reply User × Graph
  use_backup u g none = (refuse 401 "Invalid MFA code", g)
  use_backup u g (some secrets) = (ok u, record g { totp_secrets = secrets })

  unfoldable pub use_code : ℕ → User → Graph → Reply (Bool × Option String) → Reply User × Graph
  use_code now u g (ok (false, matched)) = (refuse 401 "Invalid MFA code", g)
  use_code now u g (ok (true, none)) =
      (ok u, record g { totp_secrets = set_secret (stamp_secret now) u.email g.totp_secrets })
  use_code now u g (ok (true, some used)) =
      use_backup u g (consume_code (drop_code used) u.email used g.totp_secrets)
  use_code now u g (refuse status detail) = (refuse status detail, g)
  use_code now u g break = (break, g)

  module _ (between : Graph → Graph) where
    unfoldable pub check_code : ℕ → User → Graph → TotpSecret → Option String → Reply User × Graph
    check_code now u g t none = (refuse 401 "MFA code required", g)
    check_code now u g t (some code) =
        if code == ""
        then (refuse 401 "MFA code required", g)
        else use_code now u (between g) (verify_totp_code c t code)

    unfoldable pub check_mfa :
        ℕ → User → Option String → Graph → Option TotpSecret → Reply User × Graph
    check_mfa now u mfa_code g none = (ok u, g)
    check_mfa now u mfa_code g (some t) =
        if t.enabled then check_code now u g t mfa_code else (ok u, g)

    module _ (s : AuthSettings) (moment : Moment) where
      -- The user's last login, after the pair is issued.
      unfoldable pub after_pair : User → Option Issued × Graph → Reply Issued × Graph
      after_pair u (none, g) = (break, g)
      after_pair u (some issued, g) =
          (ok issued, set_user (record u { last_login = some issued.meta.issued_at }) g)

      unfoldable pub after_mfa : Reply User × Graph → Reply Issued × Graph
      after_mfa (ok u, g) =
          after_pair u (issue_token_pair s moment PrincipalType.user u.email [] none g)
      after_mfa (refuse status detail, g) = (refuse status detail, g)
      after_mfa (break, g) = (break, g)

      unfoldable pub after_rehash : Option String → User × Graph → Reply Issued × Graph
      after_rehash mfa_code (u, g) =
          after_mfa (check_mfa moment.now u mfa_code g (fetch_totp_secret u.email g.totp_secrets))

      unfoldable pub after_password :
          String → Option String → Graph → Reply User → Reply Issued × Graph
      after_password password mfa_code g (ok u) = after_rehash mfa_code (rehash password u g)
      after_password password mfa_code g (refuse status detail) = (refuse status detail, g)
      after_password password mfa_code g break = (break, g)

      unfoldable pub login : String → String → Option String → Graph → Reply Issued × Graph
      login email password mfa_code g =
          after_password password mfa_code g (check_password password (find_user email g.users))
