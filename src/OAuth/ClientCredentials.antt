-- ===== src/OAuth/ClientCredentials.antt =====
-- The client_credentials grant of the token endpoint. A time of the credentials is in
-- microseconds.
pub mod Admission
use Prim.Native.Char.{Char}
use imbi_api.Prelude.{
  ℕ, String, Bool, true, false, not, ◌&&◌, ◌||◌, Option, none, some, List, [], ◌∷◌, ◌==◌,
  if◌then◌else◌, Entries, insert, member,
}
use imbi_api.Prelude.Replies.{Reply, ok, refuse, break}
use imbi_api.Prelude.Sorted.{sort_names}
use imbi_api.Prelude.Splits.{split_all, join}
use imbi_api.Auth.Keys.{is_expired, intersection}
use imbi_api.Session.Graph.{Graph, ServiceAccount, PrincipalType}
use imbi_api.Session.Issue.{AuthSettings, Moment, Issued, issue_token_pair}
use imbi_api.OAuth.Grants.{OAuth2TokenResponse, given, response_of}

-- (:ClientCredential)-[:OWNED_BY]->(:ServiceAccount); the scopes are as models.parse_scopes reads them.
pub record ClientCredential : Type 0 where
  pub client_id : String
  pub revoked : Bool
  pub expires_at : Option ℕ
  pub client_secret_hash : String
  pub scopes : List String
  pub last_used : Option ℕ
  pub owner : ServiceAccount

unfoldable pub find_credential : String → List ClientCredential → Option ClientCredential
find_credential id [] = none
find_credential id (c ∷ others) =
    let later = find_credential id others in if c.client_id == id then some c else later

-- text.split(): the parts between spaces that are not empty.
unfoldable pub drop_empty : List String → List String
drop_empty [] = []
drop_empty (t ∷ others) = let kept = drop_empty others in if t == "" then kept else t ∷ kept

unfoldable pub requested_scopes : (Char → Bool) → Option String → List String
requested_scopes is_space none = []
requested_scopes is_space (some scope) = sort_names (drop_empty (split_all is_space scope))

-- What is asked for, as far as the credential allows it; either one where the other is empty.
unfoldable pub granted_scopes : List String → List String → List String
granted_scopes [] allowed = allowed
granted_scopes (r ∷ requested) [] = r ∷ requested
granted_scopes (r ∷ requested) (a ∷ allowed) = intersection (r ∷ requested) (a ∷ allowed)

module _ (space : Char) where
  unfoldable pub scope_text : List String → Option String
  scope_text [] = none
  scope_text (p ∷ names) = some (join space (p ∷ names))

  unfoldable pub scope_claims : List String → Entries String
  scope_claims [] = ("auth_method", "client_credentials") ∷ []
  scope_claims (p ∷ names) =
      ("auth_method", "client_credentials") ∷ ("scope", join space (p ∷ names)) ∷ []

-- The credentials, and when a service account last authenticated.
pub record Credentials : Type 0 where
  pub rows : List ClientCredential
  pub last_authenticated : Entries ℕ

unfoldable pub stamp_rows : String → ℕ → List ClientCredential → List ClientCredential
stamp_rows id now [] = []
stamp_rows id now (c ∷ others) =
    (if c.client_id == id then record c { last_used = some now } else c) ∷ stamp_rows id now others

unfoldable pub stamp : String → String → ℕ → Credentials → Credentials
stamp id slug now cs = record {
  rows = stamp_rows id now cs.rows;
  last_authenticated = insert slug now cs.last_authenticated;
}

module _ (verify_password : String → String → Bool) (is_space : Char → Bool) (space : Char)
    (s : AuthSettings) (moment : Moment) where
  unfoldable pub after_client_issue :
      String
      → String
      → List String
      → Credentials
      → Option Issued × Graph
      → Reply OAuth2TokenResponse × (Graph × Credentials)
  after_client_issue id slug scopes cs (none, g) = (break, (g, cs))
  after_client_issue id slug scopes cs (some issued, g) =
      (ok (response_of s (scope_text space scopes) issued), (g, stamp id slug moment.now cs))

  unfoldable pub check_credential :
      String
      → Option String
      → Graph
      → Credentials
      → Option ClientCredential
      → Reply OAuth2TokenResponse × (Graph × Credentials)
  check_credential secret scope g cs none = (refuse 401 "Invalid client credentials", (g, cs))
  check_credential secret scope g cs (some c) =
      if c.revoked
      then (refuse 401 "Client credential has been revoked", (g, cs))
      else if is_expired c.expires_at moment.now
      then (refuse 401 "Client credential has expired", (g, cs))
      else if not (verify_password secret c.client_secret_hash)
      then (refuse 401 "Invalid client credentials", (g, cs))
      else if not c.owner.is_active
      then (refuse 401 "Service account is inactive", (g, cs))
      else let scopes = granted_scopes (requested_scopes is_space scope) (sort_names c.scopes) in
        after_client_issue c.client_id c.owner.slug scopes cs (
          issue_token_pair s moment PrincipalType.service_account c.owner.slug
            (scope_claims space scopes) none g)

  unfoldable pub with_credentials :
      Option String
      → Graph
      → Credentials
      → Option String
      → Option String
      → Reply OAuth2TokenResponse × (Graph × Credentials)
  with_credentials scope g cs (some id) (some secret) =
      check_credential secret scope g cs (find_credential id cs.rows)
  with_credentials scope g cs _ _ = (refuse 401 "Invalid client credentials", (g, cs))

  unfoldable pub client_credentials_grant :
      Option String
      → Option String
      → Option String
      → Graph
      → Credentials
      → Reply OAuth2TokenResponse × (Graph × Credentials)
  client_credentials_grant client_id client_secret scope g cs =
      with_credentials scope g cs (given client_id) (given client_secret)
