-- ===== src/Session/Refresh.antt =====
-- Rotation of a refresh token in endpoints/auth.py, with the answer to a token that was used before.
use imbi_api.Prelude.{
  ℕ, zero, suc, String, Bool, true, false, not, ◌&&◌, Option, none, some, List, [], ◌∷◌, ◌==◌,
  if◌then◌else◌,
}
use imbi_api.Prelude.Replies.{Reply, ok, refuse, break}
use imbi_api.Auth.Directory.{Claims, Verified, verified, expired, invalid}
use imbi_api.Auth.Tokens.{is_text}
use imbi_api.Session.Graph.{
  Graph, User, ServiceAccount, TokenMetadata, PrincipalType, find_user, find_service_account,
  find_token, revoke_where, has_family,
}
use imbi_api.Session.Issue.{AuthSettings, Moment, Issued, issue_token_pair}

-- One try of the cascade: it is committed, it meets the database's passing fault, or it raises
-- another exception.
pub data Write : Type 0 where
  committed transient failed : Write

-- What follows from one try, and from the tries after it.
unfoldable pub after_try : Write → Bool → Bool
after_try committed later = true
after_try transient later = later
after_try failed later = false

-- Whether the cascade is committed within the tries that are left; it raises otherwise.
unfoldable pub cascade_commits : (ℕ → Write) → ℕ → ℕ → Bool
cascade_commits tries attempt zero = false
cascade_commits tries attempt (suc left) =
    after_try (tries attempt) (cascade_commits tries (suc attempt) left)

-- t.family_id = family and t.revoked = false
unfoldable pub is_live_in : String → TokenMetadata → Bool
is_live_in family t = has_family family t && not t.revoked

unfoldable pub cascade : Bool → String → ℕ → Graph → Bool × Graph
cascade true family now g =
    (true, record g { tokens = revoke_where (is_live_in family) now g.tokens })
cascade false family now g = (false, g)

-- The family of a token that was used before; without one there is no chain to revoke.
unfoldable pub reuse_in : (ℕ → Write) → ℕ → Graph → Option String → Bool × Graph
reuse_in tries now g none = (true, g)
reuse_in tries now g (some family) =
    if family == "" then (true, g) else cascade (cascade_commits tries 0 3) family now g

-- `true` where it returns, `false` where it raises.
unfoldable pub reuse_of : (ℕ → Write) → ℕ → Graph → Option TokenMetadata → Bool × Graph
reuse_of tries now g none = (true, g)
reuse_of tries now g (some t) =
    if not t.revoked then (true, g) else reuse_in tries now g t.family_id

unfoldable pub handle_refresh_reuse : (ℕ → Write) → String → ℕ → Graph → Bool × Graph
handle_refresh_reuse tries jti now g = reuse_of tries now g (find_token jti g.tokens)

-- n.jti = jti, n.revoked = false and n.token_type = 'refresh'
unfoldable pub is_live_refresh : String → TokenMetadata → Bool
is_live_refresh jti t = t.jti == jti && not t.revoked && t.is_refresh

-- The first row of the query that revokes.
unfoldable pub find_live_refresh : String → List TokenMetadata → Option TokenMetadata
find_live_refresh jti [] = none
find_live_refresh jti (t ∷ tokens) =
    let later = find_live_refresh jti tokens in if is_live_refresh jti t then some t else later

-- The pair, or PrincipalNotFoundError.
unfoldable pub pair_or_break : Option Issued × Graph → Reply Issued × Graph
pair_or_break (none, g) = (break, g)
pair_or_break (some issued, g) = (ok issued, g)

unfoldable pub after_reuse : Bool × Graph → Reply Issued × Graph
after_reuse (true, g) = (refuse 401 "Refresh token has been revoked", g)
after_reuse (false, g) = (break, g)

module _ (s : AuthSettings) (moment : Moment) where
  -- The rotated pair of a service account, and of a user.
  unfoldable pub rotate_client :
      Option String → Graph → Option ServiceAccount → Reply Issued × Graph
  rotate_client family g none = (refuse 401 "Service account not found or inactive", g)
  rotate_client family g (some sa) =
      if not sa.is_active
      then (refuse 401 "Service account not found or inactive", g)
      else pair_or_break (
          issue_token_pair s moment PrincipalType.service_account sa.slug
            (("auth_method", "client_credentials") ∷ []) family g)

  unfoldable pub rotate_user : Option String → Graph → Option User → Reply Issued × Graph
  rotate_user family g none = (refuse 401 "User not found or inactive", g)
  rotate_user family g (some u) =
      if not u.is_active
      then (refuse 401 "User not found or inactive", g)
      else pair_or_break (issue_token_pair s moment PrincipalType.user u.email [] family g)

  -- payload['sub'] raises where there is none.
  unfoldable pub rotate_for :
      Option String → Option String → Option String → Graph → Reply Issued × Graph
  rotate_for auth_method none family g = (break, g)
  rotate_for auth_method (some subject) family g =
      if is_text auth_method "client_credentials"
      then rotate_client family g (find_service_account subject g.service_accounts)
      else rotate_user family g (find_user subject g.users)

  module _ (tries : ℕ → Write) where
    -- What the revoking query found.
    unfoldable pub after_revoke :
        Claims → String → Graph → Option TokenMetadata → Reply Issued × Graph
    after_revoke claims jti g none = after_reuse (handle_refresh_reuse tries jti moment.now g)
    after_revoke claims jti g (some t) =
        rotate_for claims.auth_method claims.sub t.family_id
          (record g { tokens = revoke_where (is_live_refresh jti) moment.now g.tokens })

    -- payload['jti'] raises where there is none.
    unfoldable pub revoke_refresh : Claims → Graph → Option String → Reply Issued × Graph
    revoke_refresh claims g none = (break, g)
    revoke_refresh claims g (some jti) = after_revoke claims jti g (find_live_refresh jti g.tokens)

    unfoldable pub rotate_verified : Graph → Verified → Reply Issued × Graph
    rotate_verified g expired = (refuse 401 "Refresh token expired", g)
    rotate_verified g invalid = (refuse 401 "Invalid refresh token", g)
    rotate_verified g (verified claims) =
        if not (is_text claims.type "refresh")
        then (refuse 401 "Invalid token type", g)
        else revoke_refresh claims g claims.jti

    unfoldable pub rotate_refresh_token :
        (String → Verified) → String → Graph → Reply Issued × Graph
    rotate_refresh_token verify_token token g = rotate_verified g (verify_token token)
