-- ===== src/OAuth/Grants.antt =====
-- The grants of the token endpoint for authorization codes and refresh tokens.
use imbi_api.Prelude.{
  ℕ, String, Bool, true, false, not, ◌||◌, Option, none, some, List, [], ◌∷◌, ◌==◌, if◌then◌else◌,
}
use imbi_api.Prelude.Replies.{Reply, ok, refuse, break}
use imbi_api.Auth.Directory.{Verified}
use imbi_api.Session.Graph.{Graph, PrincipalType}
use imbi_api.Session.Issue.{AuthSettings, Moment, Issued, issue_token_pair}
use imbi_api.Session.Refresh.{Write, rotate_refresh_token}
use imbi_api.OAuth.Clients.{OauthClient, get_client}
use imbi_api.OAuth.Codes.{CodePayload, Store, Json, consume_code, verify_pkce}

pub record OAuth2TokenResponse : Type 0 where
  pub access_token : String
  pub expires_in : ℕ
  pub scope : Option String
  pub refresh_token : String

-- The parameters of an exchange.
pub record Exchange : Type 0 where
  pub code : String
  pub redirect_uri : String
  pub client_id : String
  pub code_verifier : String

-- A parameter that is given, and not empty.
unfoldable pub given : Option String → Option String
given none = none
given (some t) = if t == "" then none else some t

unfoldable pub exchange_of :
    Option String → Option String → Option String → Option String → Option Exchange
exchange_of (some code) (some redirect_uri) (some client_id) (some code_verifier) = some (record {
  code = code;
  redirect_uri = redirect_uri;
  client_id = client_id;
  code_verifier = code_verifier;
})
exchange_of _ _ _ _ = none

unfoldable pub response_of : AuthSettings → Option String → Issued → OAuth2TokenResponse
response_of s scope issued = record {
  access_token = issued.access_token;
  expires_in = s.access_token_expire_seconds;
  scope = scope;
  refresh_token = issued.refresh_token;
}

module _ (challenge : String → String) (s : AuthSettings) (moment : Moment) where
  unfoldable pub after_issue :
      Option String → Option Issued × Graph → Reply OAuth2TokenResponse × Graph
  after_issue scope (none, g) = (refuse 400 "User no longer exists", g)
  after_issue scope (some issued, g) = (ok (response_of s scope issued), g)

  unfoldable pub after_pkce : CodePayload → Graph → Reply Bool → Reply OAuth2TokenResponse × Graph
  after_pkce p g (ok false) = (refuse 400 "PKCE verification failed", g)
  after_pkce p g (ok true) = after_issue p.scope (
      issue_token_pair s moment PrincipalType.user p.principal_id (("auth_method", "oauth") ∷ [])
        none g)
  after_pkce p g (refuse status detail) = (refuse status detail, g)
  after_pkce p g break = (break, g)

  unfoldable pub after_payload :
      Exchange → Graph → Reply (Option CodePayload) → Reply OAuth2TokenResponse × Graph
  after_payload e g (ok none) = (refuse 400 "Invalid or expired authorization code", g)
  after_payload e g (ok (some p)) =
      if not (p.client_id == e.client_id) || not (p.redirect_uri == e.redirect_uri)
      then (refuse 400 "Authorization code does not match request", g)
      else after_pkce p g (verify_pkce challenge e.code_verifier p.code_challenge)
  after_payload e g (refuse status detail) = (refuse status detail, g)
  after_payload e g break = (break, g)

  module _ (v : Store) (json : Json) (clients : List OauthClient) where
    unfoldable pub redeem :
        Exchange
        → Graph
        → Reply (Option CodePayload) × v.State
        → Reply OAuth2TokenResponse × (Graph × v.State)
    redeem e g (payload, codes) =
        let (answer, h) = after_payload e g payload in (answer, (h, codes))

    unfoldable pub exchange_for :
        Exchange
        → ℕ
        → Graph
        → v.State
        → Option OauthClient
        → Reply OAuth2TokenResponse × (Graph × v.State)
    exchange_for e now g codes none = (refuse 401 "Invalid client_id", (g, codes))
    exchange_for e now g codes (some client) = redeem e g (consume_code v json e.code now codes)

    -- Without Valkey a code cannot be used once only, and is refused.
    unfoldable pub exchange :
        Bool → ℕ → Graph → v.State → Option Exchange → Reply OAuth2TokenResponse × (Graph × v.State)
    exchange has_valkey now g codes none =
        (refuse 400 "Missing authorization_code parameters", (g, codes))
    exchange has_valkey now g codes (some e) =
        if not has_valkey
        then (refuse 503 "Authorization code store unavailable", (g, codes))
        else exchange_for e now g codes (get_client clients e.client_id)

    unfoldable pub authorization_code_grant :
        Bool
        → ℕ
        → Option String
        → Option String
        → Option String
        → Option String
        → Graph
        → v.State
        → Reply OAuth2TokenResponse × (Graph × v.State)
    authorization_code_grant has_valkey now code redirect_uri client_id code_verifier g codes =
        exchange has_valkey now g codes
          (exchange_of (given code) (given redirect_uri) (given client_id) (given code_verifier))

module _ (s : AuthSettings) (moment : Moment) (tries : ℕ → Write) (verify : String → Verified) where
  unfoldable pub rotated : Reply Issued × Graph → Reply OAuth2TokenResponse × Graph
  rotated (ok issued, g) = (ok (response_of s none issued), g)
  rotated (refuse status detail, g) = (refuse status detail, g)
  rotated (break, g) = (break, g)

  unfoldable pub rotate_given : Graph → Option String → Reply OAuth2TokenResponse × Graph
  rotate_given g none = (refuse 400 "Missing refresh_token", g)
  rotate_given g (some token) = rotated (rotate_refresh_token s moment tries verify token g)

  unfoldable pub refresh_token_grant : Option String → Graph → Reply OAuth2TokenResponse × Graph
  refresh_token_grant token g = rotate_given g (given token)
