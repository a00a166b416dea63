-- ===== src/Session/Graph.antt =====
-- The nodes and edges of the graph that the session code reads and writes, and the clauses of its
-- queries. A time is in microseconds.
pub use imbi_api.Auth.Types.{ServiceAccount}
use imbi_api.Prelude.{
  ℕ, String, Bool, true, false, ◌&&◌, Option, none, some, List, [], ◌∷◌, ◌==◌, if◌then◌else◌,
}

pub data PrincipalType : Type 0 where
  user service_account : PrincipalType

unfoldable pub same_type : PrincipalType → PrincipalType → Bool
same_type user user = true
same_type service_account service_account = true
same_type _ _ = false

pub record User : Type 0 where
  pub email : String
  pub is_active : Bool
  pub is_service_account : Bool
  pub password_hash : Option String
  pub last_login : Option ℕ

-- (:TokenMetadata)-[:ISSUED_TO]->(principal); `is_refresh` is token_type = 'refresh'.
pub record TokenMetadata : Type 0 where
  pub jti : String
  pub is_refresh : Bool
  pub family_id : Option String
  pub issued_at : ℕ
  pub expires_at : ℕ
  pub revoked : Bool
  pub revoked_at : Option ℕ
  pub principal_type : PrincipalType
  pub principal_id : String

pub record Role : Type 0 where
  pub slug : String
  pub is_default : Bool

-- (:User)-[:MEMBER_OF {role}]->(:Organization)
pub record Membership : Type 0 where
  pub email : String
  pub organization : String
  pub role : String

-- (:TOTPSecret)-[:MFA_FOR]->(:User)
pub record TotpSecret : Type 0 where
  pub email : String
  pub secret : String
  pub enabled : Bool
  pub last_used : Option ℕ
  pub backup_codes : List String

pub record Graph : Type 0 where
  pub users : List User
  pub service_accounts : List ServiceAccount
  pub tokens : List TokenMetadata
  pub organizations : List String
  pub roles : List Role
  pub member_of : List Membership
  pub totp_secrets : List TotpSecret
  -- The users that the (:Session)-[:SESSION_FOR]-> nodes belong to.
  pub sessions : List String

-- MATCH (u:User {email: ...}), the first row.
unfoldable pub find_user : String → List User → Option User
find_user email [] = none
find_user email (u ∷ users) =
    let later = find_user email users in if u.email == email then some u else later

unfoldable pub find_service_account : String → List ServiceAccount → Option ServiceAccount
find_service_account slug [] = none
find_service_account slug (sa ∷ others) =
    let later = find_service_account slug others in if sa.slug == slug then some sa else later

-- MATCH (n:TokenMetadata {jti: ...}), the first row.
unfoldable pub find_token : String → List TokenMetadata → Option TokenMetadata
find_token jti [] = none
find_token jti (t ∷ tokens) =
    let later = find_token jti tokens in if t.jti == jti then some t else later

unfoldable pub revoke : ℕ → TokenMetadata → TokenMetadata
revoke now t = record t { revoked = true; revoked_at = some now }

-- MATCH (t:TokenMetadata) WHERE p(t) SET t.revoked = true, t.revoked_at = now
unfoldable pub revoke_where : (TokenMetadata → Bool) → ℕ → List TokenMetadata → List TokenMetadata
revoke_where p now [] = []
revoke_where p now (t ∷ tokens) = (if p t then revoke now t else t) ∷ revoke_where p now tokens

-- (principal {email or slug})<-[:ISSUED_TO]-(t)
unfoldable pub is_issued_to : PrincipalType → String → TokenMetadata → Bool
is_issued_to type id t = same_type t.principal_type type && t.principal_id == id

unfoldable pub has_family : String → TokenMetadata → Bool
has_family family t = elim t.family_id [ none ↦ false | some f ↦ f == family ]
