-- ===== src/Session/Single.antt =====
-- A chain of rotations has one live refresh token at most.
pub mod Chains
use imbi_api.Prelude.{
  ℕ, zero, suc, ◌+◌, ◌≤◌, ◌≡◌, ◌≢◌, refl, sym, ap, subst, arith, ◌∙◌, eq_iff, All, String, Bool,
  true, false, not, ◌&&◌, ◌||◌, inl, inr, Option, none, some, List, [], ◌∷◌, ◌==◌, if◌then◌else◌,
  if_both, Entries, Bool-cases, Option-cases, member, IsDistinct, eq_refl,
}
use imbi_api.Prelude.Replies.{Reply, ok, refuse, break}
use imbi_api.Auth.Directory.{Claims, Verified, verified, expired, invalid}
use imbi_api.Session.Graph.{
  Graph, User, ServiceAccount, TokenMetadata, PrincipalType, revoke, revoke_where, has_family,
}
use imbi_api.Session.Issue.{
  AuthSettings, Moment, Meta, count_users, count_service_accounts, count_principals, create_rows,
  sign, meta_of, access_row, refresh_row, family_or_new, issue_token_pair, persist,
}
use imbi_api.Session.Rows.{reuse-keeps, logout-keeps}
use imbi_api.Session.Added.{Adds, issue-Adds, rotate_for-Adds}
use imbi_api.Session.Refresh.{Write, find_live_refresh, is_live_refresh}

-- A refresh token of a family that is not revoked.
abbrev pub is_live_in_family : String → TokenMetadata → Bool
is_live_in_family family t = has_family family t && t.is_refresh && not t.revoked

abbrev pub count_live : String → List TokenMetadata → ℕ
count_live family [] = 0
count_live family (t ∷ ts) = (if is_live_in_family family t then 1 else 0) + count_live family ts

-- No family has two live refresh tokens.
abbrev pub IsSingle : List TokenMetadata → Type 0
IsSingle ts = (family : String) → count_live family ts ≤ 1

-- No row belongs to the family.
abbrev pub IsUnused : String → List TokenMetadata → Type 0
IsUnused family ts = All (λ t. has_family family t ≡ false) ts

pub count-revoke_where :
    (family : String) (p : TokenMetadata → Bool) (now : ℕ) (ts : List TokenMetadata)
    → count_live family (revoke_where p now ts) ≤ count_live family ts
unfolding revoke_where revoke has_family
count-revoke_where family p now [] = omega arith
count-revoke_where family p now (t ∷ ts) =
    let ih = count-revoke_where family p now ts in ground (arith, ih)

family-own :
    (family : String) (t : TokenMetadata) → t.family_id ≡ some family → has_family family t ≡ true
unfolding has_family
family-own family t f = rw f (eq_refl family)

-- Claiming a live refresh token of a family takes one away.
count-claim :
    (family jti : String) (now : ℕ) (ts : List TokenMetadata) (t : TokenMetadata)
    → find_live_refresh jti ts ≡ some t
    → has_family family t ≡ true
    → count_live family (revoke_where (is_live_refresh jti) now ts) + 1 ≤ count_live family ts
unfolding revoke_where revoke find_live_refresh is_live_refresh
count-claim family jti now [] t e f = cc
count-claim family jti now (x ∷ ts) t e f = elim (Bool-cases (is_live_refresh jti x)) [
  | inl live ↦
      let head : find_live_refresh jti (x ∷ ts) ≡ some x = rw live refl in
      let same : x ≡ t = cc in
      let own : has_family family x ≡ true = rw same f in
      let fewer = count-revoke_where family (is_live_refresh jti) now ts in
      ground (arith, live, own, fewer)
  | inr dead ↦
      let tail : find_live_refresh jti (x ∷ ts) ≡ find_live_refresh jti ts = rw dead refl in
      let later = count-claim family jti now ts t (cc) f in ground (arith, dead, later)
]

count-unused :
    (family : String) (ts : List TokenMetadata) → IsUnused family ts → count_live family ts ≡ 0
count-unused family [] h = refl
count-unused family (t ∷ ts) h =
    let ih = count-unused family ts h.1 in let u = h.0 in ground (arith, ih, u)

-- A pair adds a live refresh token to its own family.
count-pair :
    (family : String) (n : ℕ) (type : PrincipalType) (id : String) (m : Meta)
    (ts : List TokenMetadata)
    → n ≤ 1
    → count_live family (create_rows n type id m ts)
      ≤ (if m.family_id == family then 1 else 0) + count_live family ts
unfolding create_rows access_row refresh_row has_family
count-pair family zero type id m ts h = omega arith
count-pair family (suc zero) type id m ts h = ground arith
count-pair family (suc (suc n)) type id m ts h = absurd (omega arith)

pair-IsSingle :
    (n : ℕ) (type : PrincipalType) (id : String) (m : Meta) (ts : List TokenMetadata)
    → n ≤ 1
    → count_live m.family_id ts ≡ 0
    → IsSingle ts
    → IsSingle (create_rows n type id m ts)
pair-IsSingle n type id m ts few free h family =
    let bound = count-pair family n type id m ts few in
    let before = h family in
    elim (Bool-cases (m.family_id == family)) [
      | inl own ↦
          let same : m.family_id ≡ family = ground (arith, eq_iff m.family_id family, own) in
          let free' = subst (λ f. count_live f ts ≡ 0) same free in
          ground (arith, bound, own, free')
      | inr other ↦ ground (arith, bound, other, before)
    ]

-- The database keeps one user with an address, and one service account with a slug.
abbrev pub IsUnique : Graph → Type 0
IsUnique g =
    ((email : String) → count_users email g.users ≤ 1)
    × ((slug : String) → count_service_accounts slug g.service_accounts ≤ 1)

count-IsUnique :
    (type : PrincipalType) (id : String) (g : Graph) → IsUnique g → count_principals type id g ≤ 1
unfolding count_principals
count-IsUnique PrincipalType.user id g u = u.0 id
count-IsUnique PrincipalType.service_account id g u = u.1 id

-- The family that a moment draws is new.
abbrev pub DrawsNew : Moment → Graph → Type 0
DrawsNew moment g =
    (id : String) (claims : Entries String) → IsUnused (moment.mint id claims).new_family g.tokens

module _ (s : AuthSettings) (moment : Moment) where
  -- Rows that are added to a family without a live token.
  pub Adds-IsSingle :
      (family : Option String) (g : Graph) (ts : List TokenMetadata)
      → IsUnique g
      → ((id : String) (claims : Entries String)
          → count_live (family_or_new family (moment.mint id claims).new_family) g.tokens ≡ 0)
      → IsSingle g.tokens
      → Adds s moment family g ts
      → IsSingle ts
  unfolding sign meta_of
  Adds-IsSingle family g ts u free h (inl e) = subst IsSingle (sym e) h
  Adds-IsSingle family g ts u free h (inr (type, id, claims, e)) = subst IsSingle (sym e) (
      pair-IsSingle (count_principals type id g) type id _ g.tokens (count-IsUnique type id g u)
        (free id claims) h)

  pub issue-IsSingle :
      (type : PrincipalType) (id : String) (claims : Entries String) (g : Graph)
      → IsUnique g
      → DrawsNew moment g
      → IsSingle g.tokens
      → IsSingle (issue_token_pair s moment type id claims none g).1.tokens
  unfolding family_or_new
  issue-IsSingle type id claims g u new h =
      Adds-IsSingle none g _ u (λ i c. count-unused (moment.mint i c).new_family g.tokens (new i c))
        h (issue-Adds s moment none g type id claims)

  -- The family of a claimed token has no live token left, and neither has a new one.
  pub claimed_free :
      (jti : String) (g : Graph) (t : TokenMetadata)
      → find_live_refresh jti g.tokens ≡ some t
      → DrawsNew moment g
      → IsSingle g.tokens
      → (id : String) (claims : Entries String)
      → count_live
          (family_or_new t.family_id (moment.mint id claims).new_family)
          (revoke_where (is_live_refresh jti) moment.now g.tokens)
        ≡ 0
  unfolding family_or_new
  claimed_free jti g t e new h id claims = elim (Option-cases t.family_id) [
    | inl f ↦
        let none_left = count-unused (moment.mint id claims).new_family g.tokens (new id claims) in
        let fewer =
          count-revoke_where (moment.mint id claims).new_family (is_live_refresh jti) moment.now
            g.tokens in
        rw f (omega (arith, none_left, fewer))
    | inr (family, f) ↦
        let own : has_family family t ≡ true = family-own family t f in
        let fewer = count-claim family jti moment.now g.tokens t e own in
        let one = h family in rw f (omega (arith, fewer, one))
  ]
