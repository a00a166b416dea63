-- ===== src/Session/Login/Factors.antt =====
-- What a login asks for: the password, and the second factor of a user that has one.
use imbi_api.Prelude.{
  ℕ, ◌≡◌, ◌≢◌, ◌⊎◌, inl, inr, refl, ap, subst, arith, String, Bool, true, false, not, ◌||◌, Option,
  none, some, ◌==◌, if_both, if_second, Bool-cases, Option-cases,
}
use imbi_api.Prelude.Replies.{Reply, ok, refuse, break}
use imbi_api.Session.Graph.{Graph, User, TotpSecret, find_user}
use imbi_api.Session.Issue.{AuthSettings, Moment, Issued}
use imbi_api.Session.Totp.{Checks, fetch_totp_secret, verify_totp_code}
use imbi_api.Session.Login.{
  eligible, hash_to_check, user_or_refuse, check_password, use_code, check_code, check_mfa,
  after_mfa, after_rehash, after_password, login, rehash, needs_merge, set_user,
}

eligible-none : eligible none ≡ false
unfolding eligible
eligible-none = refl

module _ (c : Checks) where
  -- Where the account may not sign in with a password, and where the password is wrong, the answer
  -- is the same and nothing changes.
  pub login_refused :
      (between : Graph → Graph) (s : AuthSettings) (moment : Moment) (email password : String)
      (mfa_code : Option String) (g : Graph)
      → (eligible (find_user email g.users) ≡ false)
        ⊎ (c.verify_password password (
              hash_to_check c.dummy_password_hash
                (eligible (find_user email g.users))
                (find_user email g.users))
            ≡ false)
      → login c between s moment email password mfa_code g ≡ (refuse 401 "Invalid credentials", g)
  unfolding login check_password after_password
  login_refused between s moment email password mfa_code g (inl e) = rw e refl
  login_refused between s moment email password mfa_code g (inr e) =
      let u = find_user email g.users in
      let guard : (not (eligible u)
            || not
                (c.verify_password password (hash_to_check c.dummy_password_hash (eligible u) u)))
          ≡ true =
        ground (arith, e) in
      rw guard refl

  -- A code that passes is valid.
  abbrev pub IsValidCode : TotpSecret → Option String → Type 0
  IsValidCode t mfa_code =
      (code : String) × (matched : Option String) × (mfa_code ≡ some code)
      × (verify_totp_code c t code ≡ ok (true, matched))

  use_code-valid :
      (now : ℕ) (u v : User) (g : Graph) (r : Reply (Bool × Option String))
      → (use_code c now u g r).0 ≡ ok v
      → (matched : Option String) × (r ≡ ok (true, matched))
  unfolding use_code
  use_code-valid now u v g (ok (false, matched)) e = cc
  use_code-valid now u v g (ok (true, matched)) e = (matched, refl)
  use_code-valid now u v g (refuse status detail) e = cc
  use_code-valid now u v g break e = cc

  module _ (between : Graph → Graph) where
    check_code-valid :
        (now : ℕ) (u v : User) (g : Graph) (t : TotpSecret) (mfa_code : Option String)
        → (check_code c between now u g t mfa_code).0 ≡ ok v
        → IsValidCode t mfa_code
    unfolding check_code
    check_code-valid now u v g t none e = cc
    check_code-valid now u v g t (some code) e =
        let (given, e₁) =
          if_second (λ (r : Reply User × Graph). r.0 ≡ ok v) (code == "") _ _ (λ w. cc) e in
        let (m, valid) = use_code-valid now u v (between g) (verify_totp_code c t code) e₁ in
        (code, m, refl, valid)

    check_mfa-valid :
        (now : ℕ) (u v : User) (g : Graph) (t : TotpSecret) (mfa_code : Option String)
        → t.enabled ≡ true
        → (check_mfa c between now u mfa_code g (some t)).0 ≡ ok v
        → IsValidCode t mfa_code
    unfolding check_mfa
    check_mfa-valid now u v g t mfa_code enabled e =
        let on : check_mfa c between now u mfa_code g (some t)
            ≡ check_code c between now u g t mfa_code =
          rw enabled refl in
        check_code-valid now u v g t mfa_code (subst (λ (r : Reply User × Graph). r.0 ≡ ok v) on e)

    module _ (s : AuthSettings) (moment : Moment) where
      after_mfa-ok :
          (r : Reply User × Graph) (issued : Issued)
          → (after_mfa c between s moment r).0 ≡ ok issued
          → (v : User) × (r.0 ≡ ok v)
      unfolding after_mfa
      after_mfa-ok (ok v, g) issued e = (v, refl)
      after_mfa-ok (refuse status detail, g) issued e = cc
      after_mfa-ok (break, g) issued e = cc

      after_rehash-valid :
          (password : String) (mfa_code : Option String) (u : User) (g : Graph) (t : TotpSecret)
          (issued : Issued)
          → fetch_totp_secret u.email g.totp_secrets ≡ some t
          → t.enabled ≡ true
          → (after_rehash c between s moment mfa_code (rehash c password u g)).0 ≡ ok issued
          → IsValidCode t mfa_code
      unfolding after_rehash rehash set_user
      after_rehash-valid password mfa_code u g t issued found enabled e =
          let (new, h) = rehash c password u g in
          let found' : fetch_totp_secret new.email h.totp_secrets ≡ some t =
            if_both (λ (x : Graph). fetch_totp_secret u.email x.totp_secrets ≡ some t)
              (needs_merge c u.password_hash) _ _ found found in
          let (v, e₁) = after_mfa-ok _ issued e in
          check_mfa-valid moment.now new v h t mfa_code enabled
            (subst (λ o. (check_mfa c between moment.now new mfa_code h o).0 ≡ ok v) found' e₁)

      login_found :
          (email password : String) (mfa_code : Option String) (g : Graph) (u : User)
          → find_user email g.users ≡ some u
          → eligible (some u) ≡ true
          → c.verify_password password (hash_to_check c.dummy_password_hash true (some u)) ≡ true
          → login c between s moment email password mfa_code g
            ≡ after_rehash c between s moment mfa_code (rehash c password u g)
      unfolding login check_password after_password user_or_refuse
      login_found email password mfa_code g u found may valid = rw (found, may, valid) refl

      refused_login :
          (email password : String) (mfa_code : Option String) (g : Graph) (issued : Issued)
          → (eligible (find_user email g.users) ≡ false)
            ⊎ (c.verify_password password (
                  hash_to_check c.dummy_password_hash
                    (eligible (find_user email g.users))
                    (find_user email g.users))
                ≡ false)
          → (login c between s moment email password mfa_code g).0 ≢ ok issued
      refused_login email password mfa_code g issued why e =
          let refused = login_refused between s moment email password mfa_code g why in
          let answer : (login c between s moment email password mfa_code g).0
              ≡ refuse 401 "Invalid credentials" =
            ap (λ (r : Reply Issued × Graph). r.0) refused in
          cc

      -- A login that succeeds names a user that may sign in by password, with that password; and if
      -- the user's second factor is enabled, it brings a code that is valid for the secret.
      pub login-IsProven :
          (email password : String) (mfa_code : Option String) (g : Graph) (issued : Issued)
          → (login c between s moment email password mfa_code g).0 ≡ ok issued
          → (u : User) × (find_user email g.users ≡ some u)
            × (eligible (some u) ≡ true)
            × (c.verify_password password (hash_to_check c.dummy_password_hash true (some u))
                ≡ true)
            × ((t : TotpSecret)
                → fetch_totp_secret u.email g.totp_secrets ≡ some t
                → t.enabled ≡ true
                → IsValidCode t mfa_code)
      login-IsProven email password mfa_code g issued e =
          elim (Option-cases (find_user email g.users)) [
            | inl nobody ↦
                absurd (
                  refused_login email password mfa_code g issued (inl (rw nobody (eligible-none)))
                    e)
            | inr (u, found) ↦ elim (Bool-cases (eligible (some u))) [
              | inr may_not ↦
                  absurd (refused_login email password mfa_code g issued (inl (rw found may_not)) e)
              | inl may ↦
                  elim (Bool-cases (
                    c.verify_password password
                      (hash_to_check c.dummy_password_hash true (some u)))) [
                        | inr wrong ↦ absurd (
                            refused_login email password mfa_code g issued
                              (inr (rw (found, may) wrong)) e)
                        | inl valid ↦ (
                          u,
                          found,
                          may,
                          valid,
                          λ t held enabled.
                              after_rehash-valid password mfa_code u g t issued held enabled (
                                subst (λ (r : Reply Issued × Graph). r.0 ≡ ok issued)
                                  (login_found email password mfa_code g u found may valid) e),
                        )
                      ]
            ]
          ]
