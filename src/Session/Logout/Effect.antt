-- ===== src/Session/Logout/Effect.antt =====
-- What a logout ends, whatever calls come after it.
use imbi_api.Prelude.{
  ℕ, ◌≡◌, ◌≢◌, refl, subst, arith, ◌∙◌, All, String, Bool, true, Option, none, some, List, [], ◌∷◌,
  if_both,
}
use imbi_api.Prelude.Replies.{ok}
use imbi_api.Auth.Types.{AuthContext}
use imbi_api.Auth.Directory.{Directory, Claims, Verified, verified}
use imbi_api.Auth.Tokens.{authenticate_jwt, is_true}
use imbi_api.Auth.Tokens.Admission.{authenticate_jwt-HasClaims, HasClaims}
use imbi_api.Session.Graph.{
  Graph, TokenMetadata, PrincipalType, find_token, revoke, revoke_where, is_issued_to,
}
use imbi_api.Session.Issue.{AuthSettings, Moment, Issued, sign, meta_of}
use imbi_api.Session.Refresh.{Write, is_live_refresh, rotate_refresh_token}
use imbi_api.Session.Logout.{
  Caller, has_jti, revoke_access, revoke_all, revoke_tokens, logout, is_live_of,
}
use imbi_api.Session.Rows.{KeptByRevoking, KeptByIssuing, revoke_tokens-keeps}
use imbi_api.Session.Calls.{Call, run, MintsOther, DrawsOther, run-keeps}
use imbi_api.Session.Spent.{IsSpent, spent-IsRefused, run-IsSpent}
use imbi_api.Session.Reuse.{revised, find-revoke_where, find-create, jti-find}

-- The first row of a token is revoked.
abbrev pub IsRevoked : String → List TokenMetadata → Type 0
IsRevoked jti ts = (t : TokenMetadata) × (find_token jti ts ≡ some t) × (t.revoked ≡ true)

-- What the query of authentication answers for a token's identifier.
abbrev revoked_of : Option TokenMetadata → Option Bool
revoked_of none = none
revoked_of (some t) = some t.revoked

abbrev pub revoked_in : Graph → Option String → Option Bool
revoked_in g none = none
revoked_in g (some jti) = revoked_of (find_token jti g.tokens)

module _ (s : AuthSettings) where
  revoking-IsRevoked : (jti : String) → KeptByRevoking (IsRevoked jti) s
  unfolding revoke
  revoking-IsRevoked jti p now ts (t, found, r) = (
    revised p now t,
    find-revoke_where jti p now ts t found,
    if_both (λ (x : TokenMetadata). x.revoked ≡ true) (p t) _ _ refl r,
  )

  issuing-IsRevoked :
      (jti : String) (moment : Moment)
      → MintsOther jti moment
      → KeptByIssuing (IsRevoked jti) s moment
  unfolding sign meta_of
  issuing-IsRevoked jti moment other n type id claims parent ts (t, found, r) =
      let (a, b) = other id claims in (t, find-create jti n type id _ ts a b ∙ found, r)

  access-IsRevoked :
      (jti : String) (now : ℕ) (ts : List TokenMetadata) (t : TokenMetadata)
      → find_token jti ts ≡ some t
      → IsRevoked jti (revoke_where (has_jti (some jti)) now ts)
  unfolding revoke has_jti
  access-IsRevoked jti now ts t found = (
    revoke now t,
    rw (find-revoke_where jti (has_jti (some jti)) now ts t found, jti-find jti ts t found) refl,
    refl,
  )

  logged_out-IsRevoked :
      (jti : String) (all : Bool) (caller : Caller) (now : ℕ) (g : Graph) (t : TokenMetadata)
      → caller.session_id ≡ some jti
      → find_token jti g.tokens ≡ some t
      → IsRevoked jti (logout all caller now g).1.tokens
  unfolding logout revoke_access
  logged_out-IsRevoked jti all caller now g t own found =
      revoke_tokens-keeps (IsRevoked jti) s (revoking-IsRevoked jti) all caller now
        (revoke_access caller.session_id now g) (rw own (access-IsRevoked jti now g.tokens t found))

  -- After a logout the access token of the session is not admitted again, whatever calls follow,
  -- as long as their new tokens bear other identifiers and authentication reads the same rows.
  pub logout-authenticate_jwt :
      (all : Bool) (caller : Caller) (now : ℕ) (calls : List Call) (g : Graph) (t : TokenMetadata)
      (d : Directory) (token jti : String) (claims : Claims) (ctx : AuthContext)
      → caller.session_id ≡ some jti
      → find_token jti g.tokens ≡ some t
      → All (DrawsOther jti) calls
      → d.revoked_token ≡ revoked_in (run s calls (logout all caller now g).1)
      → d.verify_token token ≡ verified claims
      → claims.jti ≡ some jti
      → authenticate_jwt d token ≢ ok ctx
  unfolding is_true
  logout-authenticate_jwt all caller now calls g t d token jti claims ctx own found others reads v j
        e =
      let revoked_now = logged_out-IsRevoked jti all caller now g t own found in
      let (row, here, revoked) =
        run-keeps (IsRevoked jti) s jti (revoking-IsRevoked jti) (issuing-IsRevoked jti) calls
          (logout all caller now g).1 others revoked_now in
      let admitted =
        subst (λ x. HasClaims d x ctx) v ((authenticate_jwt-HasClaims d token ctx).0 e) in
      let live = admitted.1 in
      let dead : is_true (d.revoked_token claims.jti) ≡ true = rw (reads, j, here, revoked) refl in
      cc

-- Where every live row of a token is one that a query revokes, the query spends the token.
revoked-IsSpent :
    (jti : String) (p : TokenMetadata → Bool) (now : ℕ) (ts : List TokenMetadata)
    → All (λ t. is_live_refresh jti t ≡ true → p t ≡ true) ts
    → IsSpent jti (revoke_where p now ts)
unfolding revoke_where is_live_refresh revoke
revoked-IsSpent jti p now [] h = tt
revoked-IsSpent jti p now (t ∷ ts) h =
    (let own = h.0 in ground (arith, own), revoked-IsSpent jti p now ts h.1)

-- The live rows of a refresh token have a property.
abbrev pub LiveRows : (TokenMetadata → Bool) → String → List TokenMetadata → Type 0
LiveRows p jti ts = All (λ t. is_live_refresh jti t ≡ true → p t ≡ true) ts

revoke_where-LiveRows :
    (p q : TokenMetadata → Bool) (jti : String) (now : ℕ) (ts : List TokenMetadata)
    → LiveRows p jti ts
    → LiveRows p jti (revoke_where q now ts)
unfolding revoke_where is_live_refresh revoke
revoke_where-LiveRows p q jti now [] h = tt
revoke_where-LiveRows p q jti now (t ∷ ts) h = (
  let own = h.0 in
      if_both (λ (x : TokenMetadata). is_live_refresh jti x ≡ true → p x ≡ true) (q t) _ _
        (λ e. ground arith) own,
  revoke_where-LiveRows p q jti now ts h.1,
)

live_of_issued :
    (type : PrincipalType) (id jti : String) (ts : List TokenMetadata)
    → LiveRows (is_issued_to type id) jti ts
    → LiveRows (is_live_of type id) jti ts
unfolding is_live_of is_live_refresh
live_of_issued type id jti [] h = tt
live_of_issued type id jti (t ∷ ts) h =
    (let own = h.0 in λ live. ground (arith, live, own live), live_of_issued type id jti ts h.1)

-- The principal of a caller.
abbrev pub PrincipalOf : Caller → PrincipalType → String → Type 0
PrincipalOf caller PrincipalType.service_account id = caller.service_account ≡ some id
PrincipalOf caller PrincipalType.user id =
    (caller.service_account ≡ none) × (caller.email ≡ some id)

module _ (s : AuthSettings) where
  all-IsSpent :
      (type : PrincipalType) (id jti : String) (caller : Caller) (now : ℕ) (g : Graph)
      → PrincipalOf caller type id
      → LiveRows (is_issued_to type id) jti g.tokens
      → IsSpent jti (revoke_all caller.service_account caller.email now g).tokens
  unfolding revoke_all
  all-IsSpent PrincipalType.service_account id jti caller now g own h =
      rw own (revoked-IsSpent jti _ now g.tokens (live_of_issued _ id jti g.tokens h))
  all-IsSpent PrincipalType.user id jti caller now g own h =
      rw (own.0, own.1) (revoked-IsSpent jti _ now g.tokens (live_of_issued _ id jti g.tokens h))

  -- After a logout from all sessions, no refresh token that was issued to the caller is exchanged
  -- for a pair again, whatever calls follow, as long as their new tokens bear other identifiers.
  pub logout_all-rotate :
      (type : PrincipalType) (id jti token : String) (caller : Caller) (now : ℕ) (calls : List Call)
      (g : Graph) (moment : Moment) (tries : ℕ → Write) (verify : String → Verified)
      (claims : Claims) (issued : Issued)
      → PrincipalOf caller type id
      → LiveRows (is_issued_to type id) jti g.tokens
      → All (DrawsOther jti) calls
      → verify token ≡ verified claims
      → claims.jti ≡ some jti
      → (rotate_refresh_token s moment tries verify token
          (run s calls (logout true caller now g).1)).0
        ≢ ok issued
  unfolding logout revoke_access revoke_tokens
  logout_all-rotate type id jti token caller now calls g moment tries verify claims issued own rows
        others v j =
      spent-IsRefused s moment tries verify token jti claims v j _ issued (
        run-IsSpent s jti calls _ others (
          all-IsSpent type id jti caller now _ own
            (revoke_where-LiveRows _ _ jti now g.tokens rows)))
