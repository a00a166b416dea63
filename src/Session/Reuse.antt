-- ===== src/Session/Reuse.antt =====
-- A refresh token that comes a second time ends its whole family.
use imbi_api.Prelude.{
  ℕ, zero, suc, ◌≡◌, ◌≢◌, refl, ap, subst, arith, ◌∙◌, eq_iff, All, String, Bool, true, false, inl,
  inr, some, List, [], ◌∷◌, ◌==◌, if◌then◌else◌, if_both, Bool-cases,
}
use imbi_api.Prelude.Replies.{refuse}
use imbi_api.Auth.Directory.{Claims, Verified, verified}
use imbi_api.Auth.Tokens.{is_text}
use imbi_api.Session.Graph.{
  Graph, TokenMetadata, PrincipalType, find_token, revoke, revoke_where, has_family,
}
use imbi_api.Session.Issue.{
  AuthSettings, Moment, Meta, create_rows, sign, meta_of, access_row, refresh_row,
}
use imbi_api.Session.Refresh.{
  Write, handle_refresh_reuse, reuse_of, reuse_in, cascade, cascade_commits, is_live_in,
  after_reuse, after_revoke, rotate_refresh_token, find_live_refresh, is_live_refresh,
}
use imbi_api.Session.Rows.{KeptByRevoking, KeptByIssuing, rotate_for-keeps}
use imbi_api.Session.Calls.{Call, run, MintsOther, DrawsOther, run-keeps}
use imbi_api.Session.Spent.{find-IsSpent, rotation_of, presented-IsSpent, run-IsSpent}

-- The first row of a token is revoked, and belongs to a family.
abbrev pub IsUsed : String → String → List TokenMetadata → Type 0
IsUsed jti family ts =
    (t : TokenMetadata) × (find_token jti ts ≡ some t)
    × (t.revoked ≡ true)
    × (t.family_id ≡ some family)

-- Every row of the family is revoked.
abbrev pub IsDead : String → List TokenMetadata → Type 0
IsDead family ts = All (λ t. has_family family t ≡ true → t.revoked ≡ true) ts

abbrev pub revised : (TokenMetadata → Bool) → ℕ → TokenMetadata → TokenMetadata
revised p now t = if p t then revoke now t else t

jti-revised :
    (p : TokenMetadata → Bool) (now : ℕ) (t : TokenMetadata) → (revised p now t).jti ≡ t.jti
unfolding revoke
jti-revised p now t = if_both (λ (x : TokenMetadata). x.jti ≡ t.jti) (p t) _ _ refl refl

pub find-revoke_where :
    (jti : String) (p : TokenMetadata → Bool) (now : ℕ) (ts : List TokenMetadata)
    (t : TokenMetadata)
    → find_token jti ts ≡ some t
    → find_token jti (revoke_where p now ts) ≡ some (revised p now t)
unfolding find_token revoke_where
find-revoke_where jti p now [] t e = cc
find-revoke_where jti p now (x ∷ ts) t e = elim (Bool-cases (x.jti == jti)) [
  | inl hit ↦
      let same : some x ≡ some t =
        (let head : find_token jti (x ∷ ts) ≡ some x = rw hit refl in cc) in
      let same' : x ≡ t = cc in
      rw (jti-revised p now x, hit) (ap (λ y. some (revised p now y)) same')
  | inr miss ↦
      let tail : find_token jti (x ∷ ts) ≡ find_token jti ts = rw miss refl in
      rw (jti-revised p now x, miss) (find-revoke_where jti p now ts t cc)
]

revoke_where-IsUsed :
    (jti family : String) (p : TokenMetadata → Bool) (now : ℕ) (ts : List TokenMetadata)
    → IsUsed jti family ts
    → IsUsed jti family (revoke_where p now ts)
unfolding revoke
revoke_where-IsUsed jti family p now ts (t, found, r, f) = (
  revised p now t,
  find-revoke_where jti p now ts t found,
  if_both (λ (x : TokenMetadata). x.revoked ≡ true) (p t) _ _ refl r,
  if_both (λ (x : TokenMetadata). x.family_id ≡ some family) (p t) _ _ f f,
)

pub find-create :
    (jti : String) (n : ℕ) (type : PrincipalType) (id : String) (m : Meta) (ts : List TokenMetadata)
    → m.access_jti ≢ jti
    → m.refresh_jti ≢ jti
    → find_token jti (create_rows n type id m ts) ≡ find_token jti ts
unfolding find_token create_rows access_row refresh_row
find-create jti zero type id m ts a r = refl
find-create jti (suc n) type id m ts a r =
    let rest = find-create jti n type id m ts a r in
    ground (arith, rest, eq_iff m.access_jti jti, eq_iff m.refresh_jti jti)

pub jti-find :
    (jti : String) (ts : List TokenMetadata) (t : TokenMetadata)
    → find_token jti ts ≡ some t
    → (t.jti == jti) ≡ true
unfolding find_token
jti-find jti [] t e = cc
jti-find jti (x ∷ ts) t e = elim (Bool-cases (x.jti == jti)) [
  | inl hit ↦
      let head : find_token jti (x ∷ ts) ≡ some x = rw hit refl in
      let same : x ≡ t = cc in subst (λ (y : TokenMetadata). (y.jti == jti) ≡ true) same hit
  | inr miss ↦
      let tail : find_token jti (x ∷ ts) ≡ find_token jti ts = rw miss refl in
      jti-find jti ts t (cc)
]

-- The query that claims a live token leaves it used.
claim-IsUsed :
    (jti family : String) (now : ℕ) (ts : List TokenMetadata) (t : TokenMetadata)
    → find_token jti ts ≡ some t
    → is_live_refresh jti t ≡ true
    → t.family_id ≡ some family
    → IsUsed jti family (revoke_where (is_live_refresh jti) now ts)
unfolding revoke
claim-IsUsed jti family now ts t found live f = (
  revoke now t,
  rw (find-revoke_where jti (is_live_refresh jti) now ts t found, live) refl,
  refl,
  f,
)

cascade-IsDead :
    (family : String) (now : ℕ) (ts : List TokenMetadata)
    → IsDead family (revoke_where (is_live_in family) now ts)
unfolding revoke_where is_live_in revoke has_family
cascade-IsDead family now [] = tt
cascade-IsDead family now (t ∷ ts) = (ground arith, cascade-IsDead family now ts)

-- A row that stands first and is live is the one that the query claims.
find_live :
    (jti : String) (ts : List TokenMetadata) (t : TokenMetadata)
    → find_token jti ts ≡ some t
    → is_live_refresh jti t ≡ true
    → find_live_refresh jti ts ≡ some t
unfolding find_token find_live_refresh is_live_refresh
find_live jti [] t e live = cc
find_live jti (x ∷ ts) t e live = elim (Bool-cases (x.jti == jti)) [
  | inl hit ↦
      let head : find_token jti (x ∷ ts) ≡ some x = rw hit refl in
      let same : x ≡ t = cc in
      let live' : is_live_refresh jti x ≡ true = rw same live in rw (live') (ap some same)
  | inr miss ↦
      let tail : find_token jti (x ∷ ts) ≡ find_token jti ts = rw miss refl in
      let later = find_live jti ts t (cc) live in rw miss later
]

-- A presented token that was used before revokes its family.
reuse-IsDead :
    (tries : ℕ → Write) (jti family : String) (now : ℕ) (g : Graph)
    → IsUsed jti family g.tokens
    → family ≢ ""
    → cascade_commits tries 0 3 ≡ true
    → (after_reuse (handle_refresh_reuse tries jti now g)).0
        ≡ refuse 401 "Refresh token has been revoked"
      × IsDead family (after_reuse (handle_refresh_reuse tries jti now g)).1.tokens
unfolding handle_refresh_reuse reuse_of reuse_in cascade after_reuse
reuse-IsDead tries jti family now g (t, found, r, f) named commits =
    let named' : (family == "") ≡ false = ground (arith, eq_iff family "", named) in
    rw (found, r, f, named', commits) (refl, cascade-IsDead family now g.tokens)

module _ (s : AuthSettings) where
  revoking-IsUsed : (jti family : String) → KeptByRevoking (IsUsed jti family) s
  revoking-IsUsed jti family p now ts h = revoke_where-IsUsed jti family p now ts h

  issuing-IsUsed :
      (jti family : String) (moment : Moment)
      → MintsOther jti moment
      → KeptByIssuing (IsUsed jti family) s moment
  unfolding sign meta_of
  issuing-IsUsed jti family moment other n type id claims parent ts (t, found, r, f) =
      let (a, b) = other id claims in (t, find-create jti n type id _ ts a b ∙ found, r, f)

  module _ (verify : String → Verified) (token jti family : String) (claims : Claims)
      (v : verify token ≡ verified claims) (j : claims.jti ≡ some jti)
      (refreshes : is_text claims.type "refresh" ≡ true) where
    first-IsUsed :
        (moment : Moment) (tries : ℕ → Write) (g : Graph) (t : TokenMetadata)
        → MintsOther jti moment
        → find_token jti g.tokens ≡ some t
        → is_live_refresh jti t ≡ true
        → t.family_id ≡ some family
        → IsUsed jti family (rotate_refresh_token s moment tries verify token g).1.tokens
    unfolding after_revoke
    first-IsUsed moment tries g t other found live f =
        rw
          (
            rotation_of s moment tries verify token jti claims v j g,
            refreshes,
            find_live jti g.tokens t found live,
          )
          (rotate_for-keeps (IsUsed jti family) s (revoking-IsUsed jti family) moment
            (issuing-IsUsed jti family moment other) claims.auth_method claims.sub t.family_id _
            (claim-IsUsed jti family moment.now g.tokens t found live f))

    -- The second time a refresh token of a family is presented, and however many sign-ins,
    -- rotations and logouts lie between, it is refused with 401 and every token of the family is
    -- revoked, those that were rotated from it included. The database has to commit one of three
    -- tries, and the tokens minted since the first time to bear other identifiers.
    pub replay-IsDead :
        (moment later : Moment) (tries tries_later : ℕ → Write) (calls : List Call) (g : Graph)
        (t : TokenMetadata)
        → MintsOther jti moment
        → All (DrawsOther jti) calls
        → find_token jti g.tokens ≡ some t
        → is_live_refresh jti t ≡ true
        → t.family_id ≡ some family
        → family ≢ ""
        → cascade_commits tries_later 0 3 ≡ true
        → let first = rotate_refresh_token s moment tries verify token g in
          let second =
            rotate_refresh_token s later tries_later verify token (run s calls first.1) in
          (second.0 ≡ refuse 401 "Refresh token has been revoked") × IsDead family second.1.tokens
    unfolding after_revoke
    replay-IsDead moment later tries tries_later calls g t other others found live f named commits =
        let first = rotate_refresh_token s moment tries verify token g in
        let between = run s calls first.1 in
        let spent =
          run-IsSpent s jti calls first.1 others
            (presented-IsSpent s moment tries verify token jti claims v j g other refreshes) in
        let used =
          run-keeps (IsUsed jti family) s jti (revoking-IsUsed jti family)
            (issuing-IsUsed jti family) calls first.1 others
            (first-IsUsed moment tries g t other found live f) in
        rw
          (
            rotation_of s later tries_later verify token jti claims v j between,
            refreshes,
            find-IsSpent jti between.tokens spent,
          )
          (reuse-IsDead tries_later jti family later.now between used named commits)
