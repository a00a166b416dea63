-- ===== src/OAuth/Clients.antt =====
-- auth/oauth_clients.py, and registration in endpoints/auth.py. `urlparse` is an argument.
use imbi_api.Prelude.{
  String, Bool, true, false, not, ◌&&◌, ◌||◌, any, Option, none, some, List, [], ◌∷◌, ◌==◌,
  if◌then◌else◌, member,
}
use Prim.Native.Char.{Char}
use Prim.Native.String.{◌++◌}
use imbi_api.Prelude.Replies.{Reply, ok, refuse}

pub record OauthClient : Type 0 where
  pub client_id : String
  pub client_name : Option String
  pub redirect_uris : List String
  pub grant_types : List String
  pub response_types : List String
  pub token_endpoint_auth_method : String
  pub scope : Option String

-- What urlparse gives.
pub record Parsed : Type 0 where
  pub scheme : String
  pub netloc : String
  pub hostname : Option String
  pub fragment : String

unfoldable pub has_space : (Char → Bool) → String → Bool
has_space is_space String.[] = false
has_space is_space (String.◌∷◌ c rest) = is_space c || has_space is_space rest

unfoldable pub or_empty : Option String → String
or_empty none = ""
or_empty (some t) = t

unfoldable pub is_loopback : String → Bool
is_loopback host = host == "localhost" || host == "127.0.0.1" || host == "::1"

unfoldable pub is_valid_parsed : Parsed → Bool
is_valid_parsed p =
    if not (p.fragment == "")
    then false
    else if p.scheme == "https" && not (p.netloc == "")
    then true
    else if p.scheme == "http"
    then is_loopback (or_empty p.hostname)
    else false

module _ (is_space : Char → Bool) (urlparse : String → Parsed) where
  unfoldable pub is_valid_redirect_uri : String → Bool
  is_valid_redirect_uri uri =
      if uri == "" || has_space is_space uri then false else is_valid_parsed (urlparse uri)

  -- The first registered URI that is not valid.
  unfoldable pub invalid_uri : List String → Option String
  invalid_uri [] = none
  invalid_uri (uri ∷ uris) =
      let later = invalid_uri uris in if is_valid_redirect_uri uri then later else some uri

-- The first client with an id.
unfoldable pub get_client : List OauthClient → String → Option OauthClient
get_client [] id = none
get_client (c ∷ clients) id =
    let later = get_client clients id in if c.client_id == id then some c else later

-- A request for registration; its client id is drawn outside.
pub record Registration : Type 0 where
  pub client_name : Option String
  pub redirect_uris : List String
  pub grant_types : List String
  pub response_types : List String
  pub token_endpoint_auth_method : String
  pub scope : Option String

-- set(names) - {first, second} is not empty.
unfoldable pub has_other : String → String → List String → Bool
has_other first second names = any (λ n. not (n == first || n == second)) names

-- set(names) == {name}
unfoldable pub is_just : String → List String → Bool
is_just name names = member name names && not (any (λ n. not (n == name)) names)

unfoldable pub client_of : String → Registration → OauthClient
client_of id body = record {
  client_id = id;
  client_name = body.client_name;
  redirect_uris = body.redirect_uris;
  grant_types = body.grant_types;
  response_types = body.response_types;
  token_endpoint_auth_method = body.token_endpoint_auth_method;
  scope = body.scope;
}

unfoldable pub register_client :
    String → Registration → List OauthClient → OauthClient × List OauthClient
register_client id body clients = (client_of id body, client_of id body ∷ clients)

unfoldable pub registered : OauthClient × List OauthClient → Reply OauthClient × List OauthClient
registered (client, clients) = (ok client, clients)

unfoldable pub no_uris : List String → Bool
no_uris [] = true
no_uris (uri ∷ uris) = false

module _ (is_space : Char → Bool) (urlparse : String → Parsed) (dcr_enabled : Bool) where
  unfoldable pub check_types :
      String → Registration → List OauthClient → Reply OauthClient × List OauthClient
  check_types id body clients =
      if not (member "authorization_code" body.grant_types)
      then (refuse 400 "The authorization_code grant type is required", clients)
      else if has_other "authorization_code" "refresh_token" body.grant_types
      then (
        refuse 400 "Only the authorization_code and refresh_token grant types are supported",
        clients,
      )
      else if not (is_just "code" body.response_types)
      then (refuse 400 "Only response_types=['code'] is supported", clients)
      else if not (body.token_endpoint_auth_method == "none")
      then (
        refuse 400 "Only public clients (token_endpoint_auth_method=none) are supported",
        clients,
      )
      else registered (register_client id body clients)

  unfoldable pub check_uris :
      String
      → Registration
      → List OauthClient
      → Option String
      → Reply OauthClient × List OauthClient
  check_uris id body clients (some uri) = (refuse 400 ("Invalid redirect_uri: " ++ uri), clients)
  check_uris id body clients none = check_types id body clients

  unfoldable pub register_oauth_client :
      String → Registration → List OauthClient → Reply OauthClient × List OauthClient
  register_oauth_client id body clients =
      if not dcr_enabled
      then (refuse 403 "Dynamic client registration is disabled", clients)
      else if no_uris body.redirect_uris
      then (refuse 400 "redirect_uris is required", clients)
      else check_uris id body clients (invalid_uri is_space urlparse body.redirect_uris)
