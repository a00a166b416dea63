-- ===== src/OAuth/Journey.antt =====
-- From the authorization endpoint to the token endpoint.
use Prim.Native.String.{◌++◌}
use imbi_api.Prelude.{
  suc, arith, if◌then◌else◌, Bool-cases, inl, inr, sym, ℕ, ◌+◌, ltb, ◌≡◌, refl, ap, ◌∙◌, eq_refl,
  String, true, false, Option, none, some, List, [], ◌∷◌, ◌==◌, Entries, member,
}
use imbi_api.Prelude.Replies.{ok}
use imbi_api.Session.Graph.{Graph, User, PrincipalType, find_user}
use imbi_api.Session.Issue.{
  AuthSettings, Moment, issue_token_pair, persist, count_principals, count_users, sign,
}
use imbi_api.OAuth.Clients.{OauthClient, get_client}
use imbi_api.OAuth.Codes.{
  CodePayload, Store, Json, ttl_seconds, issue_code, consume_code, is_ascii, compare_digest,
  verify_pkce,
}
use imbi_api.OAuth.Codes.Refines.{
  Promise, promise_step, issues, Keeps, issue-Keeps, consume_code-Keeps,
}
use imbi_api.OAuth.Grants.{
  Exchange, response_of, after_issue, after_pkce, after_payload, redeem, exchange_for, exchange,
}
use imbi_api.OAuth.Authorize.{
  AuthorizeQuery, has_question, params_of, redirect_to, grant_code, check_query, check_client,
  known_client, authorize,
}

-- The exchange that a client makes of the code that it asked for.
abbrev pub exchange_of_query : AuthorizeQuery → String → String → Exchange
exchange_of_query q code verifier = record {
  code = code;
  redirect_uri = q.redirect_uri;
  client_id = q.client_id;
  code_verifier = verifier;
}

-- A request that the authorization endpoint answers with a code: of a registered client, for one of
-- its redirect URIs, with a challenge, and a caller that is signed in.
pub record IsAuthorized (clients : List OauthClient) (q : AuthorizeQuery)
    (principal : Option String) (client : OauthClient) (caller : String) : Type 0 where
  pub named : (q.client_id == "") ≡ false
  pub known : get_client clients q.client_id ≡ some client
  pub listed : member q.redirect_uri client.redirect_uris ≡ true
  pub asks_code : (q.response_type == "code") ≡ true
  pub method : (q.code_challenge_method == "S256") ≡ true
  pub challenged : (q.code_challenge == "") ≡ false
  pub signed_in : principal ≡ some caller

counted :
    (email : String) (u : User) (users : List User)
    → find_user email users ≡ some u
    → (n : ℕ) × (count_users email users ≡ suc n)
unfolding find_user count_users
counted email u [] e = cc
counted email u (v ∷ users) e = elim (Bool-cases (v.email == email)) [
  | inl hit ↦ (count_users email users, rw hit (omega arith))
  | inr miss ↦
      let tail : find_user email (v ∷ users) ≡ find_user email users = rw miss refl in
      let (n, more) = counted email u users (sym tail ∙ e) in (n, rw miss (omega (arith, more)))
]

module _ (urlencode : Entries String → String) (login_url : String) (v : Store) (json : Json)
    (clients : List OauthClient) (challenge : String → String) (s : AuthSettings)
    (moment : Moment) where
  -- An authorized request is answered by a redirect to the URI it names, with the code.
  authorize-code :
      (now : ℕ) (code : String) (q : AuthorizeQuery) (principal : Option String) (st : v.State)
      (client : OauthClient) (caller : String)
      → IsAuthorized clients q principal client caller
      → authorize urlencode login_url v json true now code clients q principal st
        ≡ grant_code urlencode login_url v json true now code q st (some caller)
  unfolding authorize known_client check_client check_query
  authorize-code now code q principal st client caller a =
      rw (a.named, a.known, a.listed, a.asks_code, a.method, a.challenged, a.signed_in) refl

  verifies :
      (verifier stored : String)
      → (verifier == "") ≡ false
      → (stored == "") ≡ false
      → is_ascii verifier ≡ true
      → is_ascii stored ≡ true
      → challenge verifier ≡ stored
      → verify_pkce challenge verifier stored ≡ ok true
  unfolding verify_pkce compare_digest
  verifies verifier stored a b c d e = rw (a, b, c, d, e, eq_refl stored) refl

  -- A pair that is issued to a user who exists is answered.
  issued-tokens :
      (caller : String) (g : Graph) (scope : Option String) (u : User)
      → find_user caller g.users ≡ some u
      → let issued =
          issue_token_pair s moment PrincipalType.user caller
            (("auth_method", "oauth") ∷ [])
            none
            g in
        let minted = moment.mint caller (("auth_method", "oauth") ∷ []) in
        ((after_issue challenge s moment scope issued).0
          ≡ ok (record {
            access_token = minted.access_token;
            expires_in = s.access_token_expire_seconds;
            scope = scope;
            refresh_token = minted.refresh_token;
          }))
        × ((after_issue challenge s moment scope issued).1 ≡ issued.1)
  unfolding after_issue issue_token_pair persist count_principals sign response_of
  issued-tokens caller g scope u exists =
      let (n, one) = counted caller u g.users exists in rw one (refl, refl)

  -- The code of an authorized request is exchanged, within a minute and by who knows the verifier,
  -- for the tokens that are minted for the user who was signed in, if that user still exists, with
  -- the scope that was asked for; the browser is sent to the redirect URI with that code.
  pub authorize-exchange :
      (now later : ℕ) (code verifier : String) (q : AuthorizeQuery) (principal : Option String)
      (st : v.State) (f : Promise) (client : OauthClient) (caller : String) (g : Graph) (u : User)
      → Keeps v json st f
      → IsAuthorized clients q principal client caller
      → ltb later (now + ttl_seconds) ≡ true
      → (verifier == "") ≡ false
      → is_ascii verifier ≡ true
      → is_ascii q.code_challenge ≡ true
      → challenge verifier ≡ q.code_challenge
      → find_user caller g.users ≡ some u
      → let asked = authorize urlencode login_url v json true now code clients q principal st in
        let given =
          exchange challenge s moment v json clients true later g asked.1
            (some (exchange_of_query q code verifier)) in
        let minted = moment.mint caller (("auth_method", "oauth") ∷ []) in
        (asked.0
          ≡ ok (
              q.redirect_uri
              ++ ((if has_question q.redirect_uri then "&" else "?")
                  ++ urlencode (params_of "code" code q.state))))
        × (given.0
            ≡ ok (record {
              access_token = minted.access_token;
              expires_in = s.access_token_expire_seconds;
              scope = q.scope;
              refresh_token = minted.refresh_token;
            }))
        × (given.1.0
            ≡ (issue_token_pair s moment PrincipalType.user caller
                (("auth_method", "oauth") ∷ [])
                none
                g).1)
  unfolding grant_code redirect_to exchange exchange_for redeem after_payload after_pkce
  authorize-exchange now later code verifier q principal st f client caller g u keeps a soon named
        ascii plain fits exists =
      let payload : CodePayload = record {
        client_id = q.client_id;
        redirect_uri = q.redirect_uri;
        code_challenge = q.code_challenge;
        principal_id = caller;
        scope = q.scope;
      } in
      let stored = issue_code v json code payload now st in
      let keeps' = issue-Keeps v json code payload now st f keeps in
      let redeemed =
        consume_code-Keeps v json code later stored (promise_step (issues code payload now) f)
          keeps' in
      let stands : promise_step (issues code payload now) f code later ≡ some payload =
        rw (eq_refl code, soon) refl in
      let found : (consume_code v json code later stored).0 ≡ ok (some payload) =
        redeemed ∙ ap ok stands in
      rw
        (
          authorize-code now code q principal st client caller a,
          a.known,
          found,
          eq_refl q.client_id,
          eq_refl q.redirect_uri,
          verifies verifier q.code_challenge named a.challenged ascii plain fits,
        )
        (
          refl,
          (issued-tokens caller g q.scope u exists).0,
          (issued-tokens caller g q.scope u exists).1,
        )
