-- ===== src/Session/Added.antt =====
-- The rows of tokens that a pair adds.
use imbi_api.Prelude.{
  ℕ, zero, suc, ◌≡◌, refl, ◌∙◌, arith, ◌⊎◌, inl, inr, String, Bool, true, false, not, Option, none,
  some, List, Entries, if_both,
}
use imbi_api.Auth.Tokens.{is_text}
use imbi_api.Session.Graph.{
  Graph, User, ServiceAccount, TokenMetadata, PrincipalType, find_user, find_service_account,
}
use imbi_api.Session.Membership.{
  ensure_user_membership, assign, assigned, create_membership, resolve_default_role,
  resolve_target_org,
}
use imbi_api.Session.Issue.{
  AuthSettings, Moment, Issued, create_rows, after_issue, persist, sign, issue_token_pair,
  count_principals,
}
use imbi_api.Session.Refresh.{pair_or_break, rotate_client, rotate_user, rotate_for}

pub tokens-assigned : (role : String) (r : Bool × Graph) → (assigned role r).1.tokens ≡ r.1.tokens
unfolding assigned
tokens-assigned role (true, g) = refl
tokens-assigned role (false, g) = refl

pub tokens-create :
    (email org role : String) (g : Graph) → (create_membership email org role g).1.tokens ≡ g.tokens
unfolding create_membership
tokens-create email org role g = ground arith

pub tokens-assign :
    (email : String) (g : Graph) (role org : Option String)
    → (assign email g role org).1.tokens ≡ g.tokens
unfolding assign
tokens-assign email g none org = refl
tokens-assign email g (some role) none = refl
tokens-assign email g (some role) (some org) =
    tokens-assigned role (create_membership email org role g) ∙ tokens-create email org role g

pub tokens-ensure :
    (email : String) (g : Graph) → (ensure_user_membership email g).1.tokens ≡ g.tokens
unfolding ensure_user_membership
tokens-ensure email g = ground (
  arith,
  tokens-assign email g (resolve_default_role g.roles) (resolve_target_org g.organizations),
)

pub tokens-after_issue :
    (raises : Bool) (type : PrincipalType) (id : String) (g : Graph)
    → (after_issue raises type id g).tokens ≡ g.tokens
unfolding after_issue
tokens-after_issue raises PrincipalType.service_account id g = refl
tokens-after_issue true PrincipalType.user id g = refl
tokens-after_issue false PrincipalType.user id g = tokens-ensure id g

-- The rows of a pair are added once for each principal, and nothing else happens to the tokens.
pub tokens-persist :
    (n : ℕ) (raises : Bool) (type : PrincipalType) (id : String) (issued : Issued) (g : Graph)
    → (persist n raises type id issued g).1.tokens ≡ create_rows n type id issued.meta g.tokens
unfolding persist create_rows
tokens-persist zero raises type id issued g = refl
tokens-persist (suc n) raises type id issued g = tokens-after_issue raises type id _

-- The rows after a call: those before, or with the rows of one pair.
module _ (s : AuthSettings) (moment : Moment) (family : Option String) (g : Graph) where
  abbrev pub Adds : List TokenMetadata → Type 0
  Adds ts =
      (ts ≡ g.tokens)
      ⊎ ((type : PrincipalType) × (id : String) × (claims : Entries String) × (ts
            ≡ create_rows (count_principals type id g) type id (sign s moment id claims family).meta
                g.tokens))

  pub issue-Adds :
      (type : PrincipalType) (id : String) (claims : Entries String)
      → Adds (issue_token_pair s moment type id claims family g).1.tokens
  unfolding issue_token_pair
  issue-Adds type id claims = inr (type, id, claims, tokens-persist _ _ _ _ _ g)

  pub pair-Adds : (r : Option Issued × Graph) → Adds r.1.tokens → Adds (pair_or_break r).1.tokens
  unfolding pair_or_break
  pair-Adds (none, h) a = a
  pair-Adds (some issued, h) a = a

  abbrev pub DoesAdd : {A : Type 0} → A × Graph → Type 0
  DoesAdd r = Adds r.1.tokens

  pub rotate_client-Adds :
      (sa : Option ServiceAccount) → DoesAdd (rotate_client s moment family g sa)
  unfolding rotate_client
  rotate_client-Adds none = inl refl
  rotate_client-Adds (some sa) =
      if_both DoesAdd (not sa.is_active) _ _ (inl refl) (pair-Adds _ (issue-Adds _ sa.slug _))

  pub rotate_user-Adds : (u : Option User) → DoesAdd (rotate_user s moment family g u)
  unfolding rotate_user
  rotate_user-Adds none = inl refl
  rotate_user-Adds (some u) =
      if_both DoesAdd (not u.is_active) _ _ (inl refl) (pair-Adds _ (issue-Adds _ u.email _))

  pub rotate_for-Adds :
      (method subject : Option String) → DoesAdd (rotate_for s moment method subject family g)
  unfolding rotate_for
  rotate_for-Adds method none = inl refl
  rotate_for-Adds method (some subject) =
      if_both DoesAdd (is_text method "client_credentials") _ _
        (rotate_client-Adds (find_service_account subject g.service_accounts))
        (rotate_user-Adds (find_user subject g.users))
