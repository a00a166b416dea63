-- ===== src/OAuth/Tests.antt =====
-- A client that registers, is authorized and exchanges its code, over the store in memory.

use imbi_api.Prelude.{ℕ, ◌≡◌, ◌≢◌, refl, String, true, false, none, some, List, [], ◌∷◌, Entries}
use imbi_api.Prelude.Replies.{ok}
use imbi_api.Session.Graph.{User, PrincipalType, find_user}
use imbi_api.Session.Issue.{issue_token_pair}
use imbi_api.OAuth.Clients.{get_client}
use imbi_api.OAuth.Codes.{CodePayload, issue_code}
use imbi_api.OAuth.Codes.Refines.{
  CodeCall, issues, consumes, Keeps, code_answers, promise_answers, promise_step, answers_refine,
  issue-Keeps,
}
use imbi_api.OAuth.Codes.InMemory.{in_memory, text_format}
use imbi_api.OAuth.Grants.{Exchange, exchange}
use imbi_api.OAuth.Exchange.{Answers, exchange-Answers, exchange_once}
use imbi_api.OAuth.Authorize.{authorize}
use imbi_api.OAuth.Journey.{IsAuthorized, exchange_of_query, authorize-exchange}
use imbi_api.OAuth.Samples.{
  codes_open, grants_open, clients_open, payload, graph, settings, moment, client, same_text,
  tokens, query, urlencode,
}

no_codes : Keeps in_memory text_format [] (λ code time. none)
unfolding codes_open
no_codes code time = refl

abbrev calls : List CodeCall
calls = issues "c1" payload 10 ∷ consumes "c1" 20 ∷ consumes "c1" 21 ∷ []

answers_refine_example :
    code_answers in_memory text_format calls [] ≡ promise_answers calls (λ code time. none)
answers_refine_example = answers_refine in_memory text_format calls [] (λ code time. none) no_codes

-- It is exchanged once, then refused.
answers_run : code_answers in_memory text_format calls [] ≡ ok (some payload) ∷ ok none ∷ []
unfolding codes_open
answers_run = refl

abbrev redeeming : Exchange
redeeming = record {
  code = "c1";
  redirect_uri = "https://app";
  client_id = "mcp_1";
  code_verifier = "v";
}

abbrev stored : Entries (String × ℕ)
stored = issue_code in_memory text_format "c1" payload 10 []

stored-Keeps :
    Keeps in_memory text_format stored (promise_step (issues "c1" payload 10) (λ code time. none))
stored-Keeps = issue-Keeps in_memory text_format "c1" payload 10 [] (λ code time. none) no_codes

exchange-Answers_example :
    (get_client (client ∷ []) "mcp_1" ≢ none)
    × ((p : CodePayload) × (promise_step (issues "c1" payload 10) (λ code time. none) "c1" 20
          ≡ some p)
        × Answers same_text settings moment p redeeming
        × (some "read" ≡ p.scope))
unfolding grants_open
exchange-Answers_example =
    exchange-Answers same_text settings moment in_memory text_format (client ∷ []) true 20 graph
      stored (promise_step (issues "c1" payload 10) (λ code time. none)) redeeming tokens
      stored-Keeps refl

exchange_once_example :
    (exchange same_text settings moment in_memory text_format
      (client ∷ [])
      true
      21
      graph
      (exchange same_text settings moment in_memory text_format
        (client ∷ [])
        true
        20
        graph
        stored
        (some redeeming)).1.1
      (some redeeming)).0
    ≢ ok tokens
unfolding grants_open
exchange_once_example =
    exchange_once same_text settings moment in_memory text_format (client ∷ []) true true 20 21
      graph graph stored (promise_step (issues "c1" payload 10) (λ code time. none)) redeeming
      redeeming tokens tokens stored-Keeps refl refl

authorized : IsAuthorized (client ∷ []) query (some "ann@example.org") client "ann@example.org"
unfolding clients_open
authorized = record {
  named = refl;
  known = refl;
  listed = refl;
  asks_code = refl;
  method = refl;
  challenged = refl;
  signed_in = refl;
}

abbrev ann : User
ann = record {
  email = "ann@example.org";
  is_active = true;
  is_service_account = false;
  password_hash = none;
  last_login = none;
}

authorize-exchange_example :
    let asked =
      authorize urlencode "/login" in_memory text_format true 10 "c1"
        (client ∷ [])
        query
        (some "ann@example.org")
        [] in
    let given =
      exchange same_text settings moment in_memory text_format
        (client ∷ [])
        true
        20
        graph
        asked.1
        (some (exchange_of_query query "c1" "v")) in
    (asked.0 ≡ ok "https://app?q")
    × (given.0 ≡ ok tokens)
    × (given.1.0
        ≡ (issue_token_pair settings moment PrincipalType.user "ann@example.org"
            (("auth_method", "oauth") ∷ [])
            none
            graph).1)
unfolding codes_open grants_open clients_open find_user
authorize-exchange_example =
    authorize-exchange urlencode "/login" in_memory text_format (client ∷ []) same_text settings
      moment 10 20 "c1" "v" query (some "ann@example.org") [] (λ code time. none) client
      "ann@example.org" graph ann no_codes authorized refl refl refl refl refl refl
