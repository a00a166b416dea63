-- ===== src/Session/Tests.antt =====
-- One user's session: a pair of tokens, its rotation, its reuse and its end.
use imbi_api.Prelude.{ℕ, ◌≡◌, ◌≢◌, refl, arith, All, true, false, none, some, [], ◌∷◌, texts_apart}
use imbi_api.Prelude.Replies.{ok, refuse}
use imbi_api.Auth.Directory.{Directory, verified, no_rows}
use imbi_api.Auth.Types.{AuthContext, client_credentials}
use imbi_api.Auth.Tokens.{authenticate_jwt, is_text}
use imbi_api.Session.Graph.{
  Graph, PrincipalType, find_user, find_token, has_family, is_issued_to, same_type,
  find_service_account, revoke_where, revoke,
}
use imbi_api.Session.Issue.{meta_of, count_users, count_service_accounts}
use imbi_api.Session.Refresh.{
  rotate_refresh_token, find_live_refresh, is_live_refresh, cascade_commits, after_try,
}
use imbi_api.Session.Logout.{logout}
use imbi_api.Session.Calls.{rotates, logs_out, run, DrawsOther}
use imbi_api.Session.Spent.{rotate_once}
use imbi_api.Session.Reuse.{IsDead, replay-IsDead}
use imbi_api.Session.Single.{IsSingle, IsUnique, DrawsNew}
use imbi_api.Session.Single.Chains.{run-IsSingle}
use imbi_api.Session.Logout.Effect.{
  logout-authenticate_jwt, logout_all-rotate, revoked_in, LiveRows,
}
use imbi_api.Session.Samples.{
  row, graph, settings, minted, moment, claims_of, verify, tries, caller, other, between, others,
}

-- Opens the functions that are run below.
rows_open : Unit {0}
unfolding find_user find_token has_family is_issued_to same_type find_live_refresh is_live_refresh
    count_users count_service_accounts is_text revoke_where revoke find_service_account
rows_open = tt

rotate_once_example :
    (rotate_refresh_token settings (moment 20) tries verify "rt1" (
      run settings between (rotate_refresh_token settings (moment 7) tries verify "rt1" graph).1)).0
    ≢ ok (record {
      access_token = "at2";
      refresh_token = "rt2";
      meta = meta_of settings 20 minted "f1";
    })
unfolding rows_open
rotate_once_example =
    rotate_once settings (moment 7) (moment 20) tries tries verify verify "rt1" "r1"
      (claims_of "r1") between graph
      (record {
        access_token = "at2";
        refresh_token = "rt2";
        meta = meta_of settings 20 minted "f1";
      })
      refl refl refl refl (other 7) others

commits : cascade_commits tries 0 3 ≡ true
unfolding cascade_commits after_try
commits = refl

replay-IsDead_example :
    let first = rotate_refresh_token settings (moment 7) tries verify "rt1" graph in
    let second =
      rotate_refresh_token settings (moment 20) tries verify "rt1" (run settings between first.1) in
    (second.0 ≡ refuse 401 "Refresh token has been revoked") × IsDead "f1" second.1.tokens
unfolding rows_open
replay-IsDead_example =
    replay-IsDead settings verify "rt1" "r1" "f1" (claims_of "r1") refl refl refl (moment 7)
      (moment 20) tries tries between graph (row "r1" true) (other 7) others refl refl refl
      (texts_apart "f1" "" refl) commits

unique : IsUnique graph
unfolding rows_open
unique = (λ email. ground arith, λ slug. ground arith)

single : IsSingle graph.tokens
unfolding rows_open
single family = ground arith

new : (now : ℕ) → DrawsNew (moment now) graph
unfolding rows_open
new now id claims = (refl, (refl, tt))

run-IsSingle_example :
    IsSingle
      (run settings
        (rotates (moment 7) tries verify "rt1" ∷ logs_out true caller 9 ∷ [])
        graph).tokens
run-IsSingle_example =
    run-IsSingle settings (rotates (moment 7) tries verify "rt1" ∷ logs_out true caller 9 ∷ [])
      graph ((unique, new 7), (tt, tt)) single

abbrev directory : Graph → Directory
directory g = record {
  verify_token = λ token. verified (record {
    type = some "access";
    jti = some "a1";
    sub = some "ann@example.org";
    auth_method = none;
  });
  revoked_token = revoked_in g;
  service_account_of = λ slug. none;
  user_of = λ email. none;
  grants = λ label prop value. no_rows;
  connections = λ id. none;
  key_row = λ id. none;
  verify_password = λ secret hash. false;
  known_permissions = [];
  can_access = λ email label slug action. none;
}

abbrev context : AuthContext
context = record {
  user = none;
  service_account = none;
  session_id = some "a1";
  auth_method = client_credentials;
  permissions = [];
  identities = [];
}

a_others : All (DrawsOther "a1") between
a_others = ((λ id claims. (texts_apart "a2" "a1" refl, texts_apart "r2" "a1" refl)), tt)

logout-authenticate_jwt_example :
    authenticate_jwt (directory (run settings between (logout false caller 9 graph).1)) "at1"
    ≢ ok context
unfolding rows_open
logout-authenticate_jwt_example =
    logout-authenticate_jwt settings false caller 9 between graph (row "a1" false)
      (directory (run settings between (logout false caller 9 graph).1)) "at1" "a1"
      (record {
        type = some "access";
        jti = some "a1";
        sub = some "ann@example.org";
        auth_method = none;
      })
      context refl refl a_others refl refl refl

live_rows : LiveRows (is_issued_to PrincipalType.user "ann@example.org") "r1" graph.tokens
unfolding rows_open
live_rows = (λ e. refl, (λ e. refl, tt))

logout_all-rotate_example :
    (rotate_refresh_token settings
      (moment 20)
      tries
      verify
      "rt1"
      (run settings between (logout true caller 9 graph).1)).0
    ≢ ok (record {
      access_token = "at2";
      refresh_token = "rt2";
      meta = meta_of settings 20 minted "f1";
    })
unfolding rows_open
logout_all-rotate_example =
    logout_all-rotate settings PrincipalType.user "ann@example.org" "r1" "rt1" caller 9 between
      graph (moment 20) tries verify (claims_of "r1")
      (record {
        access_token = "at2";
        refresh_token = "rt2";
        meta = meta_of settings 20 minted "f1";
      })
      (refl, refl) live_rows others refl refl
