-- ===== src/OAuth/ClientCredentials/Admission.antt =====
-- Which client credentials get a token, and with which scopes.
use Prim.Native.Char.{Char}
use imbi_api.Prelude.{
  ◌≡◌, refl, sym, ap, arith, String, Bool, true, false, not, Option, none, some, List, [], ◌∷◌,
  if_second, member, ◌&&◌, ◌||◌,
}
use imbi_api.Prelude.Replies.{Reply, ok}
use imbi_api.Prelude.Sorted.{insert_name, sort_names, member-sort_names}
use imbi_api.Auth.Keys.{is_expired}
use imbi_api.Auth.Keys.Checks.{member-intersection}
use imbi_api.Session.Graph.{Graph}
use imbi_api.Session.Issue.{AuthSettings, Moment, Issued}
use imbi_api.OAuth.Grants.{OAuth2TokenResponse, response_of}
use imbi_api.OAuth.ClientCredentials.{
  ClientCredential, Credentials, requested_scopes, granted_scopes, scope_text, after_client_issue,
  check_credential,
}

abbrev pub names_none : List String → Bool
names_none [] = true
names_none (p ∷ names) = false

names_none-insert_name :
    (p : String) (names : List String) → names_none (insert_name p names) ≡ false
unfolding insert_name
names_none-insert_name p [] = refl
names_none-insert_name p (n ∷ names) = ground arith

names_none-sort_names : (names : List String) → names_none (sort_names names) ≡ names_none names
unfolding sort_names
names_none-sort_names [] = refl
names_none-sort_names (p ∷ names) = names_none-insert_name p (sort_names names)

-- Whether a scope is granted: one that was asked for, if any was, and that the credential allows, if
-- it names any.
abbrev pub is_granted : List String → List String → String → Bool
is_granted requested allowed p =
    (names_none requested || member p requested)
    && (names_none allowed || member p allowed)
    && (member p requested || member p allowed)

pub member-granted_scopes :
    (p : String) (requested allowed : List String)
    → member p (granted_scopes requested allowed) ≡ is_granted requested allowed p
unfolding granted_scopes
member-granted_scopes p [] [] = refl
member-granted_scopes p [] (a ∷ allowed) = ground arith
member-granted_scopes p (r ∷ requested) [] = ground arith
member-granted_scopes p (r ∷ requested) (a ∷ allowed) =
    let both = member-intersection p (r ∷ requested) (a ∷ allowed) in ground (arith, both)

module _ (verify_password : String → String → Bool) (is_space : Char → Bool) (space : Char)
    (s : AuthSettings) (moment : Moment) where
  after_client_issue-ok :
      (id slug : String) (scopes : List String) (cs : Credentials) (r : Option Issued × Graph)
      (t : OAuth2TokenResponse)
      → (after_client_issue verify_password is_space space s moment id slug scopes cs r).0 ≡ ok t
      → t.scope ≡ scope_text space scopes
  unfolding after_client_issue response_of
  after_client_issue-ok id slug scopes cs (none, g) t e = cc
  after_client_issue-ok id slug scopes cs (some issued, g) t e =
      let same : response_of s (scope_text space scopes) issued ≡ t = cc in
      sym (ap (λ (x : OAuth2TokenResponse). x.scope) same)

  granted :
      (scope : Option String) (c : ClientCredential) (p : String)
      → member p (granted_scopes (requested_scopes is_space scope) (sort_names c.scopes))
        ≡ is_granted (requested_scopes is_space scope) c.scopes p
  granted scope c p =
      let asked = requested_scopes is_space scope in
      rw
        (
          member-granted_scopes p asked (sort_names c.scopes),
          names_none-sort_names c.scopes,
          member-sort_names p c.scopes,
        )
        refl

  -- A credential gets a token only if it is neither revoked nor expired, the secret fits and its
  -- service account is active. The token's scopes are those that were asked for and are allowed; all
  -- that are asked for where the credential names none, all allowed ones where none is asked for.
  pub check_credential-IsLive :
      (secret : String) (scope : Option String) (g : Graph) (cs : Credentials)
      (o : Option ClientCredential) (t : OAuth2TokenResponse)
      → (check_credential verify_password is_space space s moment secret scope g cs o).0 ≡ ok t
      → (c : ClientCredential) × (o ≡ some c)
        × (c.revoked ≡ false)
        × (is_expired c.expires_at moment.now ≡ false)
        × (verify_password secret c.client_secret_hash ≡ true)
        × (c.owner.is_active ≡ true)
        × ((scopes : List String) × (t.scope ≡ scope_text space scopes)
            × ((p : String)
                → member p scopes ≡ is_granted (requested_scopes is_space scope) c.scopes p))
  unfolding check_credential
  check_credential-IsLive secret scope g cs none t e = cc
  check_credential-IsLive secret scope g cs (some c) t e =
      let Q : Reply OAuth2TokenResponse × (Graph × Credentials) → Type 0 = λ r. r.0 ≡ ok t in
      let (live, e₁) = if_second Q c.revoked _ _ (λ w. cc) e in
      let (fresh, e₂) = if_second Q (is_expired c.expires_at moment.now) _ _ (λ w. cc) e₁ in
      let (fits, e₃) =
        if_second Q (not (verify_password secret c.client_secret_hash)) _ _ (λ w. cc) e₂ in
      let (active, e₄) = if_second Q (not c.owner.is_active) _ _ (λ w. cc) e₃ in
      let scope_is = after_client_issue-ok c.client_id c.owner.slug _ cs _ t e₄ in
      (
        c,
        refl,
        live,
        fresh,
        ground (arith, fits),
        ground (arith, active),
        (_, scope_is, granted scope c),
      )
