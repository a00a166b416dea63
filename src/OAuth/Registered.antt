-- ===== src/OAuth/Registered.antt =====
-- Which clients are registered, and where the authorization endpoint sends a browser.
use Prim.Native.Char.{Char}
use Prim.Native.String.{◌++◌}
use imbi_api.Prelude.{
  ℕ, ◌≡◌, ◌⊎◌, sym, ◌||◌, if◌then◌else◌, refl, subst, arith, eq_iff, inl, inr, All, String, Bool,
  true, not, Option, none, some, List, [], ◌∷◌, ◌==◌, if_both, if_first, if_second, Bool-cases,
  Entries, member,
}
use imbi_api.Prelude.Replies.{Reply, ok}
use imbi_api.OAuth.Clients.{
  OauthClient, Parsed, Registration, get_client, is_valid_redirect_uri, invalid_uri, client_of,
  register_client, registered, no_uris, check_types, check_uris, register_oauth_client, has_other,
  is_just,
}
use imbi_api.OAuth.Codes.{Store, Json}
use imbi_api.OAuth.Authorize.{
  AuthorizeQuery, has_question, params_of, redirect_to, redirect_error, grant_code, check_query,
  check_client, known_client, authorize,
}

module _ (is_space : Char → Bool) (urlparse : String → Parsed) where
  abbrev pub AreValid : List String → Type 0
  AreValid uris = All (λ u. is_valid_redirect_uri is_space urlparse u ≡ true) uris

  -- A public client of the authorization-code grant, with redirect URIs that are valid.
  abbrev pub IsPublicClient : OauthClient → Type 0
  IsPublicClient c =
      AreValid c.redirect_uris
      × (member "authorization_code" c.grant_types ≡ true)
      × (c.token_endpoint_auth_method ≡ "none")

  invalid_uri-none :
      (uris : List String) → invalid_uri is_space urlparse uris ≡ none → AreValid uris
  unfolding invalid_uri
  invalid_uri-none [] e = tt
  invalid_uri-none (uri ∷ uris) e =
      let (valid, later) =
        if_first (λ o. o ≡ none) (is_valid_redirect_uri is_space urlparse uri) _ _ (λ w. cc) e in
      (valid, invalid_uri-none uris later)

  module _ (dcr_enabled : Bool) where
    abbrev Keeps : Reply OauthClient × List OauthClient → Type 0
    Keeps r = All IsPublicClient r.1

    types-Keeps :
        (id : String) (body : Registration) (clients : List OauthClient)
        → AreValid body.redirect_uris
        → All IsPublicClient clients
        → Keeps (check_types is_space urlparse dcr_enabled id body clients)
    unfolding check_types registered register_client client_of
    types-Keeps id body clients valid h =
        elim (Bool-cases (member "authorization_code" body.grant_types)) [
          | inr e ↦ rw e h
          | inl e ↦ elim (Bool-cases (body.token_endpoint_auth_method == "none")) [
            | inr f ↦
                rw (e, f)
                  (if_both Keeps (has_other "authorization_code" "refresh_token" body.grant_types) _
                    _ h (if_both Keeps (not (is_just "code" body.response_types)) _ _ h h))
            | inl f ↦
                let none_method : body.token_endpoint_auth_method ≡ "none" =
                  (eq_iff body.token_endpoint_auth_method "none").0 f in
                rw (e, f)
                  (if_both Keeps (has_other "authorization_code" "refresh_token" body.grant_types) _
                    _ h
                    (if_both Keeps (not (is_just "code" body.response_types)) _ _ h
                      ((valid, e, none_method), h)))
          ]
        ]

    uris-Keeps :
        (id : String) (body : Registration) (clients : List OauthClient) (invalid : Option String)
        → (invalid ≡ none → AreValid body.redirect_uris)
        → All IsPublicClient clients
        → Keeps (check_uris is_space urlparse dcr_enabled id body clients invalid)
    unfolding check_uris
    uris-Keeps id body clients none valid h = types-Keeps id body clients (valid refl) h
    uris-Keeps id body clients (some uri) valid h = h

    -- Registration keeps every client public: for the authorization-code grant, without a secret,
    -- and with redirect URIs that are https or a loopback host's.
    pub register-IsPublicClient :
        (id : String) (body : Registration) (clients : List OauthClient)
        → All IsPublicClient clients
        → All IsPublicClient (register_oauth_client is_space urlparse dcr_enabled id body clients).1
    unfolding register_oauth_client
    register-IsPublicClient id body clients h = if_both Keeps (not dcr_enabled) _ _ h (
        if_both Keeps (no_uris body.redirect_uris) _ _ h (
          uris-Keeps id body clients (invalid_uri is_space urlparse body.redirect_uris)
            (invalid_uri-none body.redirect_uris) h))

  -- The clients after registration requests, the last of them first.
  unfoldable pub clients_after : Bool → List (String × Registration) → List OauthClient
  clients_after dcr_enabled [] = []
  clients_after dcr_enabled ((id, body) ∷ earlier) =
      (register_oauth_client is_space urlparse dcr_enabled id body
        (clients_after dcr_enabled earlier)).1

  clients_after-IsPublicClient :
      (dcr_enabled : Bool) (requests : List (String × Registration))
      → All IsPublicClient (clients_after dcr_enabled requests)
  unfolding clients_after
  clients_after-IsPublicClient dcr_enabled [] = tt
  clients_after-IsPublicClient dcr_enabled ((id, body) ∷ earlier) =
      register-IsPublicClient dcr_enabled id body (clients_after dcr_enabled earlier)
        (clients_after-IsPublicClient dcr_enabled earlier)

  get_client-IsPublicClient :
      (clients : List OauthClient) (id : String) (c : OauthClient)
      → All IsPublicClient clients
      → get_client clients id ≡ some c
      → IsPublicClient c
  unfolding get_client
  get_client-IsPublicClient [] id c h e = cc
  get_client-IsPublicClient (x ∷ clients) id c h e = elim (Bool-cases (x.client_id == id)) [
    | inl hit ↦
        (let same : x ≡ c = (let head : get_client (x ∷ clients) id ≡ some x = rw hit refl in cc) in
          subst IsPublicClient same h.0)
    | inr miss ↦
        (let tail : get_client (x ∷ clients) id ≡ get_client clients id = rw miss refl in
          get_client-IsPublicClient clients id c h.1 (cc))
  ]

  member-AreValid :
      (uri : String) (uris : List String)
      → AreValid uris
      → member uri uris ≡ true
      → is_valid_redirect_uri is_space urlparse uri ≡ true
  member-AreValid uri [] h m = cc
  member-AreValid uri (u ∷ uris) h m = elim (Bool-cases (u == uri)) [
    | inl hit ↦
        subst (λ x. is_valid_redirect_uri is_space urlparse x ≡ true) ((eq_iff u uri).0 hit) h.0
    | inr miss ↦ member-AreValid uri uris h.1 (ground (arith, miss, m))
  ]

  module _ (urlencode : Entries String → String) (login_url : String) (v : Store)
      (json : Json) where
    -- Where a browser is sent: to log in, or to the redirect URI of the request with parameters.
    abbrev pub Sends : AuthorizeQuery → String → Type 0
    Sends q url =
        (url ≡ login_url)
        ⊎ ((params : Entries String) × (url
              ≡ q.redirect_uri
                ++ ((if has_question q.redirect_uri then "&" else "?") ++ urlencode params)))

    abbrev SendsOk : AuthorizeQuery → Reply String → Type 0
    SendsOk q r = (url : String) → r ≡ ok url → Sends q url

    sends_back :
        (q : AuthorizeQuery) (params : Entries String)
        → SendsOk q (ok (redirect_to urlencode login_url q.redirect_uri params))
    unfolding redirect_to
    sends_back q params url e = inr (params, sym (cc))

    grant-Sends :
        (has_valkey : Bool) (now : ℕ) (code : String) (q : AuthorizeQuery) (st : v.State)
        (principal : Option String)
        → SendsOk q (grant_code urlencode login_url v json has_valkey now code q st principal).0
    unfolding grant_code
    grant-Sends has_valkey now code q st none = λ url e. inl (sym (cc))
    grant-Sends has_valkey now code q st (some principal) =
        if_both (λ (r : Reply String × v.State). SendsOk q r.0) (not has_valkey) _ _ (λ url e. cc)
          (sends_back q (params_of "code" code q.state))

    query-Sends :
        (has_valkey : Bool) (now : ℕ) (code : String) (q : AuthorizeQuery)
        (principal : Option String) (st : v.State)
        → SendsOk q (check_query urlencode login_url v json has_valkey now code q principal st).0
    unfolding check_query redirect_error
    query-Sends has_valkey now code q principal st =
        if_both (λ (r : Reply String × v.State). SendsOk q r.0) (not (q.response_type == "code")) _
          _ (sends_back q (params_of "error" "unsupported_response_type" q.state))
          (if_both (λ (r : Reply String × v.State). SendsOk q r.0)
            (not (q.code_challenge_method == "S256") || q.code_challenge == "") _ _
            (sends_back q (params_of "error" "invalid_request" q.state))
            (grant-Sends has_valkey now code q st principal))

    client-listed :
        (has_valkey : Bool) (now : ℕ) (code : String) (q : AuthorizeQuery)
        (principal : Option String) (st : v.State) (o : Option OauthClient) (url : String)
        → (check_client urlencode login_url v json has_valkey now code q principal st o).0 ≡ ok url
        → ((c : OauthClient) × (o ≡ some c) × (member q.redirect_uri c.redirect_uris ≡ true))
          × Sends q url
    unfolding check_client
    client-listed has_valkey now code q principal st none url e = cc
    client-listed has_valkey now code q principal st (some c) url e =
        let (listed, e₁) =
          if_second (λ (r : Reply String × v.State). r.0 ≡ ok url)
            (not (member q.redirect_uri c.redirect_uris)) _ _ (λ w. cc) e in
        ((c, refl, ground (arith, listed)), query-Sends has_valkey now code q principal st url e₁)

    known-get :
        (clients : List OauthClient) (id : String) (c : OauthClient)
        → known_client urlencode login_url v json clients id ≡ some c
        → get_client clients id ≡ some c
    unfolding known_client
    known-get clients id c e = (if_second (λ o. o ≡ some c) (id == "") _ _ (λ w. cc) e).1

    -- The authorization endpoint of a server whose clients have all been registered at its own
    -- endpoint answers with a redirect only if the redirect URI of the request is one that its
    -- client registered, and is https or a loopback host's; and it sends the browser there, with
    -- parameters, or to the login page.
    pub authorize-IsValid :
        (dcr_enabled : Bool) (requests : List (String × Registration)) (has_valkey : Bool) (now : ℕ)
        (code : String) (q : AuthorizeQuery) (principal : Option String) (st : v.State)
        (url : String)
        → (authorize urlencode login_url v json has_valkey now code
            (clients_after dcr_enabled requests)
            q
            principal
            st).0
          ≡ ok url
        → ((c : OauthClient) × (get_client (clients_after dcr_enabled requests) q.client_id
              ≡ some c)
            × (member q.redirect_uri c.redirect_uris ≡ true))
          × (is_valid_redirect_uri is_space urlparse q.redirect_uri ≡ true)
          × Sends q url
    unfolding authorize
    authorize-IsValid dcr_enabled requests has_valkey now code q principal st url e =
        let clients = clients_after dcr_enabled requests in
        let ((c, known, listed), sent) =
          client-listed has_valkey now code q principal st
            (known_client urlencode login_url v json clients q.client_id) url e in
        let found = known-get clients q.client_id c known in
        let public = clients_after-IsPublicClient dcr_enabled requests in
        (
          (c, found, listed),
          member-AreValid q.redirect_uri c.redirect_uris
              (get_client-IsPublicClient clients q.client_id c public found).0 listed,
          sent,
        )
