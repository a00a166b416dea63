-- ===== src/Session/Spent.antt =====
-- A refresh token is good for one rotation: whatever happens afterwards, it is refused.
use imbi_api.Prelude.{
  ℕ, zero, suc, ◌≡◌, ◌≢◌, inl, inr, refl, arith, eq_iff, All, String, Bool, true, false, not, none,
  some, List, [], ◌∷◌, if◌then◌else◌, Bool-cases, Option-cases, if_both,
}
use imbi_api.Prelude.Replies.{Reply, ok, refuse}
use imbi_api.Auth.Directory.{Claims, Verified, verified}
use imbi_api.Auth.Tokens.{is_text}
use imbi_api.Session.Graph.{Graph, TokenMetadata, PrincipalType, revoke, revoke_where}
use imbi_api.Session.Issue.{
  AuthSettings, Moment, Issued, Meta, create_rows, sign, meta_of, access_row, refresh_row,
}
use imbi_api.Session.Refresh.{
  Write, after_reuse, after_revoke, revoke_refresh, rotate_verified, rotate_refresh_token,
  find_live_refresh, is_live_refresh,
}
use imbi_api.Session.Rows.{KeptByRevoking, KeptByIssuing, rotate_for-keeps, rotate-keeps}
use imbi_api.Session.Calls.{Call, run, MintsOther, DrawsOther, run-keeps}

-- No row of the token can be rotated any more.
abbrev pub IsSpent : String → List TokenMetadata → Type 0
IsSpent jti ts = All (λ t. is_live_refresh jti t ≡ false) ts

pub find-IsSpent :
    (jti : String) (ts : List TokenMetadata) → IsSpent jti ts → find_live_refresh jti ts ≡ none
unfolding find_live_refresh
find-IsSpent jti [] h = refl
find-IsSpent jti (t ∷ ts) h = rw (h.0) (find-IsSpent jti ts h.1)

revoke-live :
    (jti : String) (now : ℕ) (t : TokenMetadata) → is_live_refresh jti (revoke now t) ≡ false
unfolding is_live_refresh revoke
revoke-live jti now t = ground arith

pub revoke_where-IsSpent :
    (jti : String) (p : TokenMetadata → Bool) (now : ℕ) (ts : List TokenMetadata)
    → IsSpent jti ts
    → IsSpent jti (revoke_where p now ts)
unfolding revoke_where
revoke_where-IsSpent jti p now [] h = tt
revoke_where-IsSpent jti p now (t ∷ ts) h = (
  if_both (λ x. is_live_refresh jti x ≡ false) (p t) (revoke now t) t (revoke-live jti now t) h.0,
  revoke_where-IsSpent jti p now ts h.1,
)

none-IsSpent :
    (jti : String) (ts : List TokenMetadata) → find_live_refresh jti ts ≡ none → IsSpent jti ts
unfolding find_live_refresh
none-IsSpent jti [] h = tt
none-IsSpent jti (t ∷ ts) h = elim (Bool-cases (is_live_refresh jti t)) [
  | inl e ↦ absurd (let found : find_live_refresh jti (t ∷ ts) ≡ some t = rw e refl in cc)
  | inr e ↦ (
    e,
    none-IsSpent jti ts
        (let later : find_live_refresh jti (t ∷ ts) ≡ find_live_refresh jti ts = rw e refl in cc),
  )
]

-- The query that claims a token spends it.
claim-IsSpent :
    (jti : String) (now : ℕ) (ts : List TokenMetadata)
    → IsSpent jti (revoke_where (is_live_refresh jti) now ts)
unfolding revoke_where
claim-IsSpent jti now [] = tt
claim-IsSpent jti now (t ∷ ts) = (
  elim (Bool-cases (is_live_refresh jti t)) [
    | inl e ↦ rw e (revoke-live jti now t)
    | inr e ↦ rw e e
  ],
  claim-IsSpent jti now ts,
)

access-IsSpent :
    (jti : String) (type : PrincipalType) (id : String) (m : Meta)
    → is_live_refresh jti (access_row type id m) ≡ false
unfolding is_live_refresh access_row
access-IsSpent jti type id m = ground arith

refresh-IsSpent :
    (jti : String) (type : PrincipalType) (id : String) (m : Meta)
    → m.refresh_jti ≢ jti
    → is_live_refresh jti (refresh_row type id m) ≡ false
unfolding is_live_refresh refresh_row
refresh-IsSpent jti type id m other = ground (arith, eq_iff m.refresh_jti jti)

create-IsSpent :
    (jti : String) (n : ℕ) (type : PrincipalType) (id : String) (m : Meta) (ts : List TokenMetadata)
    → m.refresh_jti ≢ jti
    → IsSpent jti ts
    → IsSpent jti (create_rows n type id m ts)
unfolding create_rows
create-IsSpent jti zero type id m ts other h = h
create-IsSpent jti (suc n) type id m ts other h = (
  access-IsSpent jti type id m,
  (refresh-IsSpent jti type id m other, create-IsSpent jti n type id m ts other h),
)

never_ok : (r : Bool × Graph) (issued : Issued) → (after_reuse r).0 ≢ ok issued
unfolding after_reuse
never_ok (true, g) issued e = cc
never_ok (false, g) issued e = cc

module _ (s : AuthSettings) where
  pub revoking-IsSpent : (jti : String) → KeptByRevoking (IsSpent jti) s
  revoking-IsSpent jti p now ts h = revoke_where-IsSpent jti p now ts h

  issuing-IsSpent :
      (jti : String) (moment : Moment)
      → MintsOther jti moment
      → KeptByIssuing (IsSpent jti) s moment
  unfolding sign meta_of
  issuing-IsSpent jti moment other n type id claims family ts h =
      create-IsSpent jti n type id _ ts (other id claims).1 h

  module _ (moment : Moment) (tries : ℕ → Write) (verify : String → Verified) (token jti : String)
      (claims : Claims) (v : verify token ≡ verified claims) (j : claims.jti ≡ some jti) where
    pub rotation_of :
        (g : Graph)
        → rotate_refresh_token s moment tries verify token g ≡ (
            if not (is_text claims.type "refresh")
            then (refuse 401 "Invalid token type", g)
            else after_revoke s moment tries claims jti g (find_live_refresh jti g.tokens))
    unfolding rotate_refresh_token rotate_verified revoke_refresh
    rotation_of g = rw (v, j) refl

    -- A refresh token that is presented is spent, whatever the answer.
    pub presented-IsSpent :
        (g : Graph)
        → MintsOther jti moment
        → is_text claims.type "refresh" ≡ true
        → IsSpent jti (rotate_refresh_token s moment tries verify token g).1.tokens
    unfolding after_revoke
    presented-IsSpent g other t = elim (Option-cases (find_live_refresh jti g.tokens)) [
      | inl e ↦
          rotate-keeps (IsSpent jti) s (revoking-IsSpent jti) moment
            (issuing-IsSpent jti moment other) tries verify token g (none-IsSpent jti g.tokens e)
      | inr (row, e) ↦
          rw (rotation_of g, t, e)
            (rotate_for-keeps (IsSpent jti) s (revoking-IsSpent jti) moment
              (issuing-IsSpent jti moment other) claims.auth_method claims.sub row.family_id _
              (claim-IsSpent jti moment.now g.tokens))
    ]

    pub spent-IsRefused :
        (g : Graph) (issued : Issued)
        → IsSpent jti g.tokens
        → (rotate_refresh_token s moment tries verify token g).0 ≢ ok issued
    unfolding after_revoke
    spent-IsRefused g issued h =
        rw (rotation_of g, find-IsSpent jti g.tokens h)
          (if_both (λ (r : Reply Issued × Graph). r.0 ≢ ok issued)
            (not (is_text claims.type "refresh")) _ _ (λ e. cc) (never_ok _ issued))

  pub run-IsSpent :
      (jti : String) (calls : List Call) (g : Graph)
      → All (DrawsOther jti) calls
      → IsSpent jti g.tokens
      → IsSpent jti (run s calls g).tokens
  run-IsSpent jti = run-keeps (IsSpent jti) s jti (revoking-IsSpent jti) (issuing-IsSpent jti)

  -- Once a refresh token has been presented, whatever the answer was, it is never again exchanged
  -- for a pair: not after any sequence of sign-ins, rotations and logouts, whose new tokens only
  -- have to bear other identifiers.
  pub rotate_once :
      (moment later : Moment) (tries tries_later : ℕ → Write)
      (verify verify_later : String → Verified) (token jti : String) (claims : Claims)
      (calls : List Call) (g : Graph) (issued : Issued)
      → verify token ≡ verified claims
      → verify_later token ≡ verified claims
      → claims.jti ≡ some jti
      → is_text claims.type "refresh" ≡ true
      → MintsOther jti moment
      → All (DrawsOther jti) calls
      → (rotate_refresh_token s later tries_later verify_later token
          (run s calls (rotate_refresh_token s moment tries verify token g).1)).0
        ≢ ok issued
  rotate_once moment later tries tries_later verify verify_later token jti claims calls g issued v w
        j t other others =
      spent-IsRefused later tries_later verify_later token jti claims w j _ issued (
        run-IsSpent jti calls _ others
          (presented-IsSpent moment tries verify token jti claims v j g other t))
