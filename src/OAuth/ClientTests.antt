-- ===== src/OAuth/ClientTests.antt =====
-- Clients that register, are redirected and use their own credentials.
use Prim.Native.Char.{Char, char}
use imbi_api.Prelude.{
  ◌≡◌, refl, All, String, Bool, true, false, List, none, some, [], ◌∷◌, ◌==◌, member, starts_with,
}
use imbi_api.Prelude.Splits.{split_all, next_part, extend_first, join}
use imbi_api.Prelude.Sorted.{insert_name, sort_names}
use imbi_api.Auth.Keys.{is_expired, intersection}
use imbi_api.Session.Graph.{Graph}
use imbi_api.OAuth.Clients.{
  OauthClient, Parsed, Registration, is_valid_redirect_uri, get_client, register_oauth_client,
  check_uris, check_types, no_uris, has_other, is_just, registered, register_client, client_of,
}
use imbi_api.OAuth.Codes.InMemory.{in_memory, text_format}
use imbi_api.OAuth.ClientCredentials.{
  ClientCredential, drop_empty, requested_scopes, granted_scopes, scope_text, scope_claims,
  stamp_rows, stamp, after_client_issue, check_credential,
}
use imbi_api.OAuth.ClientCredentials.Admission.{is_granted, check_credential-IsLive}
use imbi_api.OAuth.Samples.{
  grants_open, clients_open, graph, settings, moment, client, tokens, query, urlencode,
}
use imbi_api.OAuth.Registered.{
  IsPublicClient, register-IsPublicClient, clients_after, Sends, authorize-IsValid,
}

abbrev space : Char
space = char 32 tt

abbrev is_space : Char → Bool
is_space c = starts_with (String.◌∷◌ c "") " "

abbrev urlparse : String → Parsed
urlparse uri = record { scheme = "https"; netloc = uri; hostname = some uri; fragment = "" }

public : All (IsPublicClient is_space urlparse) (client ∷ [])
unfolding clients_open
public = (((refl, tt), refl, refl), tt)

abbrev request : Registration
request = record {
  client_name = none;
  redirect_uris = "https://other" ∷ [];
  grant_types = "authorization_code" ∷ [];
  response_types = "code" ∷ [];
  token_endpoint_auth_method = "none";
  scope = none;
}

registered-IsPublic :
    All
      (IsPublicClient is_space urlparse)
      (register_oauth_client is_space urlparse true "mcp_2" request (client ∷ [])).1
registered-IsPublic =
    register-IsPublicClient is_space urlparse true "mcp_2" request (client ∷ []) public

registering_open : Unit {0}
unfolding clients_open clients_after register_oauth_client check_uris check_types no_uris has_other
    is_just registered register_client client_of
registering_open = tt

abbrev first_request : Registration
first_request = record request { redirect_uris = "https://app" ∷ [] }

abbrev one_client : List OauthClient
one_client = clients_after is_space urlparse true (("mcp_1", first_request) ∷ [])

authorize-IsValid_example :
    ((c : OauthClient) × (get_client one_client "mcp_1" ≡ some c)
      × (member "https://app" c.redirect_uris ≡ true))
    × (is_valid_redirect_uri is_space urlparse "https://app" ≡ true)
    × Sends is_space urlparse urlencode "/login" in_memory text_format query "https://app?q"
unfolding registering_open
authorize-IsValid_example =
    authorize-IsValid is_space urlparse urlencode "/login" in_memory text_format true
      (("mcp_1", first_request) ∷ []) true 10 "c1" query (some "ann@example.org") [] "https://app?q"
      refl

abbrev credential : ClientCredential
credential = record {
  client_id = "cc_1";
  revoked = false;
  expires_at = none;
  client_secret_hash = "secret";
  scopes = "read" ∷ "write" ∷ [];
  last_used = none;
  owner = record { slug = "robot"; is_active = true };
}

abbrev machine : Graph
machine = record graph { service_accounts = record { slug = "robot"; is_active = true } ∷ [] }

credentials_open : Unit {0}
unfolding grants_open split_all next_part extend_first join insert_name sort_names is_expired
    intersection drop_empty requested_scopes granted_scopes scope_text scope_claims stamp_rows stamp
    after_client_issue check_credential
credentials_open = tt

check_credential-IsLive_example :
    (c : ClientCredential) × (some credential ≡ some c)
    × (c.revoked ≡ false)
    × (is_expired c.expires_at 7 ≡ false)
    × (("secret" == c.client_secret_hash) ≡ true)
    × (c.owner.is_active ≡ true)
    × ((scopes : List String) × (some "read" ≡ scope_text space scopes)
        × ((p : String)
            → member p scopes
              ≡ is_granted (requested_scopes is_space (some "read admin")) c.scopes p))
unfolding credentials_open
check_credential-IsLive_example =
    check_credential-IsLive (λ secret hash. secret == hash) is_space space settings moment "secret"
      (some "read admin") machine (record { rows = credential ∷ []; last_authenticated = [] })
      (some credential) tokens refl
