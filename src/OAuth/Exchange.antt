-- ===== src/OAuth/Exchange.antt =====
-- What an authorization code is exchanged for, and how often.
use imbi_api.Prelude.{
  ℕ, ◌≡◌, ◌≢◌, refl, sym, ap, subst, arith, eq_iff, eq_refl, String, Bool, true, false, not, ◌||◌,
  Option, none, some, List, ◌==◌, if_first, if_second,
}
use imbi_api.Prelude.Replies.{Reply, ok, refuse, break}
use imbi_api.Session.Graph.{Graph}
use imbi_api.Session.Issue.{AuthSettings, Moment, Issued}
use imbi_api.OAuth.Clients.{OauthClient, get_client}
use imbi_api.OAuth.Codes.{
  CodePayload, Store, Json, consume_code, is_ascii, compare_digest, verify_pkce,
}
use imbi_api.OAuth.Codes.Refines.{
  Promise, promise_step, consumes, Keeps, consume-Keeps, consume_code-Keeps,
}
use imbi_api.OAuth.Grants.{
  Exchange, OAuth2TokenResponse, response_of, after_issue, after_pkce, after_payload, redeem,
  exchange_for, exchange,
}

verify_pkce-ok :
    (challenge : String → String) (verifier given_challenge : String)
    → verify_pkce challenge verifier given_challenge ≡ ok true
    → challenge verifier ≡ given_challenge
unfolding verify_pkce compare_digest
verify_pkce-ok challenge verifier stored e =
    let P : Reply Bool → Type 0 = λ r. r ≡ ok true in
    let (nonempty, e₁) = if_second P (verifier == "" || stored == "") _ _ (λ w. cc) e in
    let (ascii, e₂) = if_second P (not (is_ascii verifier)) _ _ (λ w. cc) e₁ in
    let (plain, e₃) = if_first P (is_ascii stored) _ _ (λ w. cc) e₂ in
    let same : (challenge verifier == stored) ≡ true = cc in
    (eq_iff (challenge verifier) stored).0 same

module _ (challenge : String → String) (s : AuthSettings) (moment : Moment) where
  -- The payload answers the exchange.
  abbrev pub Answers : CodePayload → Exchange → Type 0
  Answers p e =
      (p.client_id ≡ e.client_id)
      × (p.redirect_uri ≡ e.redirect_uri)
      × (challenge e.code_verifier ≡ p.code_challenge)

  after_issue-ok :
      (scope : Option String) (r : Option Issued × Graph) (t : OAuth2TokenResponse)
      → (after_issue challenge s moment scope r).0 ≡ ok t
      → t.scope ≡ scope
  unfolding after_issue response_of
  after_issue-ok scope (none, g) t h = cc
  after_issue-ok scope (some issued, g) t h =
      let same : response_of s scope issued ≡ t = cc in
      sym (ap (λ (x : OAuth2TokenResponse). x.scope) same)

  after_pkce-ok :
      (p : CodePayload) (g : Graph) (r : Reply Bool) (t : OAuth2TokenResponse)
      → (after_pkce challenge s moment p g r).0 ≡ ok t
      → (r ≡ ok true) × (t.scope ≡ p.scope)
  unfolding after_pkce
  after_pkce-ok p g (ok false) t h = cc
  after_pkce-ok p g (ok true) t h = (refl, after_issue-ok p.scope _ t h)
  after_pkce-ok p g (refuse status detail) t h = cc
  after_pkce-ok p g break t h = cc

  after_payload-ok :
      (e : Exchange) (g : Graph) (r : Reply (Option CodePayload)) (t : OAuth2TokenResponse)
      → (after_payload challenge s moment e g r).0 ≡ ok t
      → (p : CodePayload) × (r ≡ ok (some p)) × Answers p e × (t.scope ≡ p.scope)
  unfolding after_payload
  after_payload-ok e g (ok none) t h = cc
  after_payload-ok e g (ok (some p)) t h =
      let (same, h₁) =
        if_second (λ (r : Reply OAuth2TokenResponse × Graph). r.0 ≡ ok t)
          (not (p.client_id == e.client_id) || not (p.redirect_uri == e.redirect_uri)) _ _ (λ w. cc)
          h in
      let (valid, scope) =
        after_pkce-ok p g (verify_pkce challenge e.code_verifier p.code_challenge) t h₁ in
      (
        p,
        refl,
        (
          ground (arith, same, eq_iff p.client_id e.client_id),
          ground (arith, same, eq_iff p.redirect_uri e.redirect_uri),
          verify_pkce-ok challenge e.code_verifier p.code_challenge valid,
        ),
        scope,
      )
  after_payload-ok e g (refuse status detail) t h = cc
  after_payload-ok e g break t h = cc

  module _ (v : Store) (json : Json) (clients : List OauthClient) where
    exchange_for-opened :
        (e : Exchange) (now : ℕ) (g : Graph) (codes : v.State) (client : Option OauthClient)
        (t : OAuth2TokenResponse)
        → (exchange_for challenge s moment v json clients e now g codes client).0 ≡ ok t
        → (client ≢ none)
          × (exchange_for challenge s moment v json clients e now g codes client
              ≡ redeem challenge s moment v json clients e g (consume_code v json e.code now codes))
    unfolding exchange_for
    exchange_for-opened e now g codes none t h = cc
    exchange_for-opened e now g codes (some client) t h = (λ w. cc, refl)

    -- An exchange that succeeds has consumed its code.
    exchange-opened :
        (has_valkey : Bool) (e : Exchange) (now : ℕ) (g : Graph) (codes : v.State)
        (t : OAuth2TokenResponse)
        → (exchange challenge s moment v json clients has_valkey now g codes (some e)).0 ≡ ok t
        → (get_client clients e.client_id ≢ none)
          × (exchange challenge s moment v json clients has_valkey now g codes (some e)
              ≡ redeem challenge s moment v json clients e g (consume_code v json e.code now codes))
    unfolding exchange
    exchange-opened false e now g codes t h = cc
    exchange-opened true e now g codes t h =
        exchange_for-opened e now g codes (get_client clients e.client_id) t h

    -- An exchange that succeeds comes from a registered client, and presents a code that stands for a
    -- payload of the same client and redirect URI, whose challenge its verifier meets; the tokens
    -- have the scope that the code was issued for.
    pub exchange-Answers :
        (has_valkey : Bool) (now : ℕ) (g : Graph) (codes : v.State) (f : Promise) (e : Exchange)
        (t : OAuth2TokenResponse)
        → Keeps v json codes f
        → (exchange challenge s moment v json clients has_valkey now g codes (some e)).0 ≡ ok t
        → (get_client clients e.client_id ≢ none)
          × ((p : CodePayload) × (f e.code now ≡ some p) × Answers p e × (t.scope ≡ p.scope))
    unfolding redeem
    exchange-Answers has_valkey now g codes f e t keeps h =
        let (known, opened) = exchange-opened has_valkey e now g codes t h in
        let h₁ =
          subst (λ (r : Reply OAuth2TokenResponse × (Graph × v.State)). r.0 ≡ ok t) opened h in
        let (p, found, answers, scope) =
          after_payload-ok e g (consume_code v json e.code now codes).0 t h₁ in
        let promised = consume_code-Keeps v json e.code now codes f keeps in
        let here : ok (f e.code now) ≡ ok (some p) = cc in
        (known, (p, (let same : f e.code now ≡ some p = cc in same), answers, scope))

    -- A code that was exchanged is gone: no second exchange of it succeeds, whoever asks and when.
    pub exchange_once :
        (has_valkey later_valkey : Bool) (now later : ℕ) (g h : Graph) (codes : v.State)
        (f : Promise) (e again : Exchange) (t u : OAuth2TokenResponse)
        → Keeps v json codes f
        → (exchange challenge s moment v json clients has_valkey now g codes (some e)).0 ≡ ok t
        → again.code ≡ e.code
        → let left =
            (exchange challenge s moment v json clients has_valkey now g codes (some e)).1.1 in
          (exchange challenge s moment v json clients later_valkey later h left (some again)).0
          ≢ ok u
    unfolding redeem
    exchange_once has_valkey later_valkey now later g h codes f e again t u keeps first same
          second =
        let (known, opened) = exchange-opened has_valkey e now g codes t first in
        let left =
          (exchange challenge s moment v json clients has_valkey now g codes (some e)).1.1 in
        let gone : left ≡ (consume_code v json e.code now codes).1 =
          ap (λ (r : Reply OAuth2TokenResponse × (Graph × v.State)). r.1.1) opened in
        let after = promise_step (consumes e.code now) f in
        let keeps' : Keeps v json left after =
          subst (λ x. Keeps v json x after) (sym gone)
            (consume-Keeps v json e.code now codes f keeps) in
        let (p, promised, answers, scope) =
          (exchange-Answers later_valkey later h left after again u keeps' second).1 in
        let nothing : after again.code later ≡ none = rw (same, eq_refl e.code) refl in cc
