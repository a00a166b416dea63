-- ===== src/OAuth/Samples.antt =====
-- A client, its request and a database, for the runs.

use imbi_api.Prelude.{String, true, false, none, some, [], ◌∷◌, Entries, lookup, insert, without}
use imbi_api.Prelude.Splits.{add_char}
use imbi_api.Session.Graph.{Graph}
use imbi_api.Session.Membership.{
  ensure_user_membership, count_memberships, assign, assigned, create_membership,
  resolve_default_role, resolve_target_org, has_role, has_user, merge_membership, has_membership,
  same_membership,
}
use imbi_api.Session.Issue.{
  AuthSettings, Moment, issue_token_pair, persist, create_rows, access_row, refresh_row,
  after_issue as after_pair, sign, meta_of, family_or_new, count_principals, count_users,
  count_service_accounts,
}
use imbi_api.OAuth.Clients.{
  OauthClient, has_space, or_empty, is_loopback, is_valid_parsed, is_valid_redirect_uri,
  invalid_uri, get_client,
}
use imbi_api.OAuth.Codes.{
  CodePayload, code_key, issue_code, payload_of, consume_code, is_ascii, compare_digest,
  verify_pkce,
}
use imbi_api.OAuth.Grants.{
  OAuth2TokenResponse, given, exchange_of, response_of, after_issue, after_pkce, after_payload,
  redeem, exchange_for, exchange,
}
use imbi_api.OAuth.Authorize.{
  AuthorizeQuery, has_question, params_of, redirect_to, redirect_error, grant_code, check_query,
  check_client, known_client, authorize,
}

-- Opens the functions that are run below.
unfoldable pub codes_open : Unit {0}
unfolding code_key issue_code payload_of consume_code is_ascii compare_digest verify_pkce add_char
    lookup insert without
codes_open = tt

unfoldable pub grants_open : Unit {0}
unfolding codes_open get_client given exchange_of response_of after_issue after_pkce after_payload
    redeem exchange_for exchange ensure_user_membership count_memberships assign assigned
    create_membership resolve_default_role resolve_target_org has_role has_user merge_membership
    has_membership same_membership issue_token_pair persist create_rows access_row refresh_row
    after_pair sign meta_of family_or_new count_principals count_users count_service_accounts
grants_open = tt

unfoldable pub clients_open : Unit {0}
unfolding has_space or_empty is_loopback is_valid_parsed is_valid_redirect_uri invalid_uri
    get_client has_question params_of redirect_to redirect_error grant_code check_query check_client
    known_client authorize
clients_open = tt

abbrev pub payload : CodePayload
payload = record {
  client_id = "mcp_1";
  redirect_uri = "https://app";
  code_challenge = "v";
  principal_id = "ann@example.org";
  scope = some "read";
}

abbrev pub graph : Graph
graph = record {
  users =
      record {
        email = "ann@example.org";
        is_active = true;
        is_service_account = false;
        password_hash = none;
        last_login = none;
      }
      ∷ [];
  service_accounts = [];
  tokens = [];
  organizations = [];
  roles = [];
  member_of = [];
  totp_secrets = [];
  sessions = [];
}

abbrev pub settings : AuthSettings
settings = record { access_token_expire_seconds = 60; refresh_token_expire_seconds = 600 }

abbrev pub moment : Moment
moment = record {
  now = 7;
  mint = λ id claims. record {
    access_token = "at";
    refresh_token = "rt";
    access_jti = "a";
    refresh_jti = "r";
    new_family = "f";
  };
  membership_raises = false;
}

abbrev pub client : OauthClient
client = record {
  client_id = "mcp_1";
  client_name = none;
  redirect_uris = "https://app" ∷ [];
  grant_types = "authorization_code" ∷ [];
  response_types = "code" ∷ [];
  token_endpoint_auth_method = "none";
  scope = none;
}

abbrev pub same_text : String → String
same_text t = t

abbrev pub tokens : OAuth2TokenResponse
tokens = record { access_token = "at"; expires_in = 60; scope = some "read"; refresh_token = "rt" }

abbrev pub query : AuthorizeQuery
query = record {
  response_type = "code";
  client_id = "mcp_1";
  redirect_uri = "https://app";
  code_challenge = "v";
  code_challenge_method = "S256";
  scope = some "read";
  state = none;
}

abbrev pub urlencode : Entries String → String
urlencode params = "q"
