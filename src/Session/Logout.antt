-- ===== src/Session/Logout.antt =====
-- `logout` and `refresh_token` of endpoints/auth.py, with the cookies that they set and clear.
pub mod Effect
use imbi_api.Prelude.{
  ℕ, eqb, String, Bool, true, false, not, ◌&&◌, ◌||◌, Option, none, some, List, [], ◌∷◌, ◌==◌,
  if◌then◌else◌,
}
use imbi_api.Prelude.Replies.{Reply, ok, refuse, break}
use imbi_api.Auth.Directory.{Verified}
use imbi_api.Session.Graph.{
  Graph, TokenMetadata, PrincipalType, find_token, revoke_where, is_issued_to,
}
use imbi_api.Session.Issue.{AuthSettings, Moment, Issued}
use imbi_api.Session.Refresh.{Write, rotate_refresh_token}

-- The two cookies of a browser; `none` where it has none.
pub record Cookies : Type 0 where
  pub refresh : Option String
  pub access : Option String

-- What `logout` reads of the caller: its session and its principal.
pub record Caller : Type 0 where
  pub session_id : Option String
  pub service_account : Option String
  pub email : Option String

unfoldable pub has_jti : Option String → TokenMetadata → Bool
has_jti none t = false
has_jti (some jti) t = t.jti == jti

unfoldable pub revoke_access : Option String → ℕ → Graph → Graph
revoke_access jti now g = record g { tokens = revoke_where (has_jti jti) now g.tokens }

unfoldable pub is_live_of : PrincipalType → String → TokenMetadata → Bool
is_live_of type id t = is_issued_to type id t && not t.revoked

unfoldable pub without_sessions : String → List String → List String
without_sessions email [] = []
without_sessions email (owner ∷ others) =
    let kept = without_sessions email others in if owner == email then kept else owner ∷ kept

-- All tokens of the principal, and the sessions of a user.
unfoldable pub revoke_all : Option String → Option String → ℕ → Graph → Graph
revoke_all (some slug) email now g = record g {
  tokens = revoke_where (is_live_of PrincipalType.service_account slug) now g.tokens;
}
revoke_all none (some email) now g = record g {
  tokens = revoke_where (is_live_of PrincipalType.user email) now g.tokens;
  sessions = without_sessions email g.sessions;
}
revoke_all none none now g = g

-- The refresh tokens of the same principal that were issued at the same time.
unfoldable pub is_issued_with : TokenMetadata → TokenMetadata → Bool
is_issued_with t rt =
    is_issued_to t.principal_type t.principal_id rt
    && rt.is_refresh
    && not rt.revoked
    && eqb rt.issued_at t.issued_at

unfoldable pub revoke_pair : Option TokenMetadata → ℕ → Graph → Graph
revoke_pair none now g = g
revoke_pair (some t) now g = record g { tokens = revoke_where (is_issued_with t) now g.tokens }

unfoldable pub session_token : Option String → List TokenMetadata → Option TokenMetadata
session_token none tokens = none
session_token (some jti) tokens = find_token jti tokens

unfoldable pub revoke_tokens : Bool → Caller → ℕ → Graph → Graph
revoke_tokens true caller now g = revoke_all caller.service_account caller.email now g
revoke_tokens false caller now g = revoke_pair (session_token caller.session_id g.tokens) now g

unfoldable pub logout : Bool → Caller → ℕ → Graph → Cookies × Graph
logout revoke_all_sessions caller now g = (
  record { refresh = none; access = none },
  revoke_tokens revoke_all_sessions caller now (revoke_access caller.session_id now g),
)

-- request.cookies.get(...) or the body's token; an empty text counts as none.
unfoldable pub cookie_or_body : Option String → Option String → Option String
cookie_or_body none body = body
cookie_or_body (some cookie) body = if cookie == "" then body else some cookie

unfoldable pub set_cookies : Cookies → Reply Issued × Graph → Reply Issued × (Cookies × Graph)
set_cookies cookies (ok issued, g) = (
  ok issued,
  (record { refresh = some issued.refresh_token; access = some issued.access_token }, g),
)
set_cookies cookies (answer, g) = (answer, (cookies, g))

module _ (s : AuthSettings) (moment : Moment) (tries : ℕ → Write) (verify : String → Verified) where
  unfoldable pub refresh_with : Cookies → Graph → Option String → Reply Issued × (Cookies × Graph)
  refresh_with cookies g none = (refuse 401 "Missing refresh token", (cookies, g))
  refresh_with cookies g (some token) =
      if token == ""
      then (refuse 401 "Missing refresh token", (cookies, g))
      else set_cookies cookies (rotate_refresh_token s moment tries verify token g)

  -- The endpoint over a browser's cookies and the token of the body.
  unfoldable pub refresh_token : Option String → Cookies → Graph → Reply Issued × (Cookies × Graph)
  refresh_token body cookies g = refresh_with cookies g (cookie_or_body cookies.refresh body)
