-- ===== src/Auth/Tokens/Admission.antt =====
-- Which bearer tokens are admitted.
use imbi_api.Prelude.{
  ◌≡◌, ◌≢◌, ◌↔◌, String, Bool, true, false, not, Option, none, some, ◌==◌, eq_iff, arith,
}
use imbi_api.Auth.Types.{User, ServiceAccount, AuthContext, ok}
use imbi_api.Auth.Directory.{
  Directory, Claims, Verified, verified, expired, invalid, names_of, load_principal_permissions,
  load_user_identities, is_selector,
}
use imbi_api.Auth.Keys.Checks.{refuse_if_iff, active_iff, not-false}
use imbi_api.Auth.Tokens.{
  is_text, is_true, over_permissions, client_context, jwt_context, client_account, user_account,
  load_principal, check_subject, check_claims, authenticate_jwt,
}

module _ (d : Directory) where
  abbrev pub IsClient : String → Option String → Option ServiceAccount → AuthContext → Type 0
  IsClient subject jti none ctx = ⊥
  IsClient subject jti (some sa) ctx =
      (sa.is_active ≡ true)
      × (ctx ≡ client_context sa jti (names_of (d.grants "ServiceAccount" "slug" subject)))

  abbrev pub IsUser : String → Option String → Option User → AuthContext → Type 0
  IsUser subject jti none ctx = ⊥
  IsUser subject jti (some user) ctx =
      (user.is_active ≡ true)
      × (ctx
          ≡ jwt_context user jti (load_user_identities d user.id)
              (names_of (d.grants "User" "email" subject)))

  client_account-IsClient :
      (subject : String) (jti : Option String) (sa : Option ServiceAccount) (ctx : AuthContext)
      → (client_account d subject jti sa ≡ ok ctx) ↔ IsClient subject jti sa ctx
  unfolding client_account over_permissions load_principal_permissions is_selector
  client_account-IsClient subject jti none ctx = (λ e. cc, λ h. absurd h)
  client_account-IsClient subject jti (some sa) ctx = active_iff sa.is_active 401 _ _ ctx

  user_account-IsUser :
      (subject : String) (jti : Option String) (user : Option User) (ctx : AuthContext)
      → (user_account d subject jti user ≡ ok ctx) ↔ IsUser subject jti user ctx
  unfolding user_account over_permissions load_principal_permissions is_selector
  user_account-IsUser subject jti none ctx = (λ e. cc, λ h. absurd h)
  user_account-IsUser subject jti (some user) ctx = active_iff user.is_active 401 _ _ ctx

  -- The active principal that the subject names: a service account for a client's token, and else a
  -- user.
  abbrev pub IsPrincipal : Bool → String → Option String → AuthContext → Type 0
  IsPrincipal true subject jti ctx = IsClient subject jti (d.service_account_of subject) ctx
  IsPrincipal false subject jti ctx = IsUser subject jti (d.user_of subject) ctx

  load_principal-IsPrincipal :
      (client : Bool) (subject : String) (jti : Option String) (ctx : AuthContext)
      → (load_principal d client subject jti ≡ ok ctx) ↔ IsPrincipal client subject jti ctx
  unfolding load_principal
  load_principal-IsPrincipal true subject jti ctx =
      client_account-IsClient subject jti (d.service_account_of subject) ctx
  load_principal-IsPrincipal false subject jti ctx =
      user_account-IsUser subject jti (d.user_of subject) ctx

  abbrev pub NamesPrincipal : Claims → Option String → AuthContext → Type 0
  NamesPrincipal claims none ctx = ⊥
  NamesPrincipal claims (some subject) ctx =
      (subject ≢ "")
      × IsPrincipal (is_text claims.auth_method "client_credentials") subject claims.jti ctx

  check_subject-NamesPrincipal :
      (claims : Claims) (sub : Option String) (ctx : AuthContext)
      → (check_subject d claims sub ≡ ok ctx) ↔ NamesPrincipal claims sub ctx
  unfolding check_subject
  check_subject-NamesPrincipal claims none ctx = (λ e. cc, λ h. absurd h)
  check_subject-NamesPrincipal claims (some subject) ctx =
      let p =
        load_principal-IsPrincipal (is_text claims.auth_method "client_credentials") subject
          claims.jti ctx in
      let g = refuse_if_iff (subject == "") 401 "Token missing subject" _ ctx in
      (
        λ e.
            let (named, e₁) = g.0 e in
            (λ same. ground (arith, named, eq_iff subject "", same), p.0 e₁),
        λ h. g.1 (ground (arith, eq_iff subject "", h.0), p.1 h.1),
      )

  abbrev pub HasClaims : Verified → AuthContext → Type 0
  HasClaims expired ctx = ⊥
  HasClaims invalid ctx = ⊥
  HasClaims (verified claims) ctx =
      (is_text claims.type "access" ≡ true)
      × (is_true (d.revoked_token claims.jti) ≡ false)
      × NamesPrincipal claims claims.sub ctx

  check_claims-HasClaims :
      (v : Verified) (ctx : AuthContext) → (check_claims d v ≡ ok ctx) ↔ HasClaims v ctx
  unfolding check_claims
  check_claims-HasClaims expired ctx = (λ e. cc, λ h. absurd h)
  check_claims-HasClaims invalid ctx = (λ e. cc, λ h. absurd h)
  check_claims-HasClaims (verified claims) ctx =
      let p = check_subject-NamesPrincipal claims claims.sub ctx in
      let t = refuse_if_iff (not (is_text claims.type "access")) 401 "Invalid token type" _ ctx in
      let r = refuse_if_iff (is_true (d.revoked_token claims.jti)) 401 "Token revoked" _ ctx in
      let n = not-false d (is_text claims.type "access") in
      (
        λ e. let (a, e₁) = t.0 e in let (b, e₂) = r.0 e₁ in (n.0 a, b, p.0 e₂),
        λ h. let (a, b, c) = h in t.1 (n.1 a, r.1 (b, p.1 c)),
      )

  -- A JWT is admitted exactly if it verifies, is an access token that is not revoked, and names an
  -- active principal; the context is then that principal's, over what its roles grant.
  pub authenticate_jwt-HasClaims :
      (token : String) (ctx : AuthContext)
      → (authenticate_jwt d token ≡ ok ctx) ↔ HasClaims (d.verify_token token) ctx
  unfolding authenticate_jwt
  authenticate_jwt-HasClaims token ctx = check_claims-HasClaims (d.verify_token token) ctx
