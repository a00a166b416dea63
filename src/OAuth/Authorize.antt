-- ===== src/OAuth/Authorize.antt =====
-- `authorize` of endpoints/auth.py, with the reading of the caller's token. `urlencode` is an
-- argument, and so is the address of the login page.
use Prim.Native.Char.{code}
use Prim.Native.String.{◌++◌}
use imbi_api.Prelude.{
  ℕ, eqb, String, Bool, false, not, ◌||◌, Option, none, some, List, [], ◌∷◌, ◌==◌, if◌then◌else◌,
  Entries, member,
}
use imbi_api.Prelude.Replies.{Reply, ok, refuse}
use imbi_api.Auth.Directory.{Verified, verified, expired, invalid}
use imbi_api.Auth.Tokens.{is_text}
use imbi_api.OAuth.Clients.{OauthClient, get_client}
use imbi_api.OAuth.Codes.{Store, Json, issue_code}
use imbi_api.OAuth.Grants.{given}

unfoldable pub subject_of : Verified → Option String
subject_of (verified claims) = if not (is_text claims.type "access") then none else claims.sub
subject_of expired = none
subject_of invalid = none

unfoldable pub principal_from_token : (String → Verified) → Option String → Option String
principal_from_token verify none = none
principal_from_token verify (some token) = subject_of (verify token)

unfoldable pub first_given : Option String → Option String → Option String
first_given none second = second
first_given (some t) second = some t

-- A bearer token's subject, unless it is empty, and else the cookie's.
unfoldable pub authorize_request_principal :
    (String → Verified) → Option String → Option String → Option String
authorize_request_principal verify bearer cookie =
    first_given (given (principal_from_token verify bearer))
      (principal_from_token verify (given cookie))

unfoldable pub has_question : String → Bool
has_question String.[] = false
has_question (String.◌∷◌ c rest) = eqb (code c) 63 || has_question rest

-- One parameter, and the state if there is one.
unfoldable pub params_of : String → String → Option String → Entries String
params_of name value none = (name, value) ∷ []
params_of name value (some t) =
    if t == "" then (name, value) ∷ [] else (name, value) ∷ ("state", t) ∷ []

-- The query of an authorization request.
pub record AuthorizeQuery : Type 0 where
  pub response_type : String
  pub client_id : String
  pub redirect_uri : String
  pub code_challenge : String
  pub code_challenge_method : String
  pub scope : Option String
  pub state : Option String

module _ (urlencode : Entries String → String) (login_url : String) where
  -- A redirect to the client.
  unfoldable pub redirect_to : String → Entries String → String
  redirect_to uri params = uri ++ ((if has_question uri then "&" else "?") ++ urlencode params)

  unfoldable pub redirect_error : AuthorizeQuery → String → String
  redirect_error q error = redirect_to q.redirect_uri (params_of "error" error q.state)

  module _ (v : Store) (json : Json) where
    unfoldable pub grant_code :
        Bool → ℕ → String → AuthorizeQuery → v.State → Option String → Reply String × v.State
    grant_code has_valkey now code q st none = (ok login_url, st)
    grant_code has_valkey now code q st (some principal) =
        if not has_valkey then (refuse 503 "Authorization code store unavailable", st) else (
          ok (redirect_to q.redirect_uri (params_of "code" code q.state)),
          issue_code v json code
              (record {
                client_id = q.client_id;
                redirect_uri = q.redirect_uri;
                code_challenge = q.code_challenge;
                principal_id = principal;
                scope = q.scope;
              })
              now st,
        )

    unfoldable pub check_query :
        Bool → ℕ → String → AuthorizeQuery → Option String → v.State → Reply String × v.State
    check_query has_valkey now code q principal st =
        if not (q.response_type == "code")
        then (ok (redirect_error q "unsupported_response_type"), st)
        else if not (q.code_challenge_method == "S256") || q.code_challenge == ""
        then (ok (redirect_error q "invalid_request"), st)
        else grant_code has_valkey now code q st principal

    unfoldable pub check_client :
        Bool
        → ℕ
        → String
        → AuthorizeQuery
        → Option String
        → v.State
        → Option OauthClient
        → Reply String × v.State
    check_client has_valkey now code q principal st none = (refuse 400 "Unknown client_id", st)
    check_client has_valkey now code q principal st (some client) =
        if not (member q.redirect_uri client.redirect_uris)
        then (refuse 400 "redirect_uri not registered for this client", st)
        else check_query has_valkey now code q principal st

    unfoldable pub known_client : List OauthClient → String → Option OauthClient
    known_client clients id = if id == "" then none else get_client clients id

    unfoldable pub authorize :
        Bool
        → ℕ
        → String
        → List OauthClient
        → AuthorizeQuery
        → Option String
        → v.State
        → Reply String × v.State
    authorize has_valkey now code clients q principal st =
        check_client has_valkey now code q principal st (known_client clients q.client_id)
