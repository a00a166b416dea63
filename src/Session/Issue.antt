-- ===== src/Session/Issue.antt =====
-- imbi_api/auth/tokens.py: an access and a refresh token with their rows. Signing tokens and
-- drawing identifiers are arguments.
use imbi_api.Prelude.{
  ℕ, zero, suc, ◌+◌, ◌*◌, String, Bool, true, false, Option, none, some, List, [], ◌∷◌, ◌==◌,
  if◌then◌else◌, Entries,
}
use imbi_api.Session.Graph.{Graph, User, ServiceAccount, TokenMetadata, PrincipalType}
use imbi_api.Session.Membership.{ensure_user_membership}

-- Two signed tokens with the jti claims that they carry, and nanoid.generate() for the family.
pub record Minted : Type 0 where
  pub access_token : String
  pub refresh_token : String
  pub access_jti : String
  pub refresh_jti : String
  pub new_family : String

pub record AuthSettings : Type 0 where
  pub access_token_expire_seconds : ℕ
  pub refresh_token_expire_seconds : ℕ

-- What the moment of a call gives: the time, what is minted for a principal with extra claims, and
-- whether the membership queries raise.
pub record Moment : Type 0 where
  pub now : ℕ
  pub mint : String → Entries String → Minted
  pub membership_raises : Bool

pub record Meta : Type 0 where
  pub access_jti : String
  pub refresh_jti : String
  pub family_id : String
  pub issued_at : ℕ
  pub access_expires_at : ℕ
  pub refresh_expires_at : ℕ

pub record Issued : Type 0 where
  pub access_token : String
  pub refresh_token : String
  pub meta : Meta

unfoldable pub count_users : String → List User → ℕ
count_users email [] = 0
count_users email (u ∷ users) = (if u.email == email then 1 else 0) + count_users email users

unfoldable pub count_service_accounts : String → List ServiceAccount → ℕ
count_service_accounts slug [] = 0
count_service_accounts slug (sa ∷ others) =
    (if sa.slug == slug then 1 else 0) + count_service_accounts slug others

-- count(p) of the MATCH.
unfoldable pub count_principals : PrincipalType → String → Graph → ℕ
count_principals PrincipalType.user id g = count_users id g.users
count_principals PrincipalType.service_account id g = count_service_accounts id g.service_accounts

-- if family_id is None: family_id = nanoid.generate()
unfoldable pub family_or_new : Option String → String → String
family_or_new none new = new
family_or_new (some family) new = family

-- What is returned for a pair.
unfoldable pub meta_of : AuthSettings → ℕ → Minted → String → Meta
meta_of s now m family = record {
  access_jti = m.access_jti;
  refresh_jti = m.refresh_jti;
  family_id = family;
  issued_at = now;
  access_expires_at = now + s.access_token_expire_seconds * 1000000;
  refresh_expires_at = now + s.refresh_token_expire_seconds * 1000000;
}

unfoldable pub access_row : PrincipalType → String → Meta → TokenMetadata
access_row type id m = record {
  jti = m.access_jti;
  is_refresh = false;
  family_id = some m.family_id;
  issued_at = m.issued_at;
  expires_at = m.access_expires_at;
  revoked = false;
  revoked_at = none;
  principal_type = type;
  principal_id = id;
}

unfoldable pub refresh_row : PrincipalType → String → Meta → TokenMetadata
refresh_row type id m = record {
  jti = m.refresh_jti;
  is_refresh = true;
  family_id = some m.family_id;
  issued_at = m.issued_at;
  expires_at = m.refresh_expires_at;
  revoked = false;
  revoked_at = none;
  principal_type = type;
  principal_id = id;
}

-- The CREATEs run once for each principal that was matched.
unfoldable pub create_rows :
    ℕ → PrincipalType → String → Meta → List TokenMetadata → List TokenMetadata
create_rows zero type id m tokens = tokens
create_rows (suc n) type id m tokens =
    access_row type id m ∷ refresh_row type id m ∷ create_rows n type id m tokens

-- The membership of a user is best effort: an exception there changes nothing.
unfoldable pub after_issue : Bool → PrincipalType → String → Graph → Graph
after_issue raises PrincipalType.service_account id g = g
after_issue true PrincipalType.user id g = g
after_issue false PrincipalType.user id g = (ensure_user_membership id g).1

unfoldable pub persist : ℕ → Bool → PrincipalType → String → Issued → Graph → Option Issued × Graph
persist zero raises type id issued g = (none, g)
persist (suc n) raises type id issued g = (
  some issued,
  after_issue raises type id
      (record g { tokens = create_rows (suc n) type id issued.meta g.tokens }),
)

module _ (s : AuthSettings) (moment : Moment) where
  unfoldable pub sign : String → Entries String → Option String → Issued
  sign id extra_claims family =
      let m = moment.mint id extra_claims in
      record {
        access_token = m.access_token;
        refresh_token = m.refresh_token;
        meta = meta_of s moment.now m (family_or_new family m.new_family);
      }

  -- `none` is PrincipalNotFoundError.
  unfoldable pub issue_token_pair :
      PrincipalType → String → Entries String → Option String → Graph → Option Issued × Graph
  issue_token_pair type id extra_claims family g =
      persist (count_principals type id g) moment.membership_raises type id
        (sign id extra_claims family) g
