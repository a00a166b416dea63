-- ===== src/Session/Samples.antt =====
-- A user with a pair of tokens, and a sign-in between two uses of it.
use imbi_api.Prelude.{
  ℕ, zero, suc, refl, All, String, Bool, true, false, none, some, List, [], ◌∷◌, ◌==◌,
  if◌then◌else◌, texts_apart,
}
use imbi_api.Auth.Directory.{Claims, Verified, verified}
use imbi_api.Session.Graph.{Graph, User, TokenMetadata, PrincipalType}
use imbi_api.Session.Issue.{AuthSettings, Moment, Minted}
use imbi_api.Session.Refresh.{Write, committed, transient}
use imbi_api.Session.Logout.{Caller}
use imbi_api.Session.Calls.{Call, issues, MintsOther, DrawsOther}

abbrev pub ann : User
ann = record {
  email = "ann@example.org";
  is_active = true;
  is_service_account = false;
  password_hash = some "hash";
  last_login = none;
}

abbrev pub row : String → Bool → TokenMetadata
row jti is_refresh = record {
  jti = jti;
  is_refresh = is_refresh;
  family_id = some "f1";
  issued_at = 5;
  expires_at = 9;
  revoked = false;
  revoked_at = none;
  principal_type = PrincipalType.user;
  principal_id = "ann@example.org";
}

abbrev pub graph : Graph
graph = record {
  users = ann ∷ [];
  service_accounts = [];
  tokens = row "a1" false ∷ row "r1" true ∷ [];
  organizations = "default" ∷ [];
  roles = record { slug = "reader"; is_default = true } ∷ [];
  member_of = [];
  totp_secrets = [];
  sessions = [];
}

abbrev pub settings : AuthSettings
settings = record { access_token_expire_seconds = 60; refresh_token_expire_seconds = 600 }

abbrev pub minted : Minted
minted = record {
  access_token = "at2";
  refresh_token = "rt2";
  access_jti = "a2";
  refresh_jti = "r2";
  new_family = "f2";
}

abbrev pub moment : ℕ → Moment
moment now = record { now = now; mint = λ id claims. minted; membership_raises = false }

abbrev pub claims_of : String → Claims
claims_of jti = record {
  type = some "refresh";
  jti = some jti;
  sub = some "ann@example.org";
  auth_method = none;
}

abbrev pub verify : String → Verified
verify token = if token == "rt1" then verified (claims_of "r1") else verified (claims_of "r2")

abbrev pub tries : ℕ → Write
tries zero = transient
tries (suc n) = committed

abbrev pub caller : Caller
caller = record { session_id = some "a1"; service_account = none; email = some "ann@example.org" }

pub other : (now : ℕ) → MintsOther "r1" (moment now)
other now id claims = (texts_apart "a2" "r1" refl, texts_apart "r2" "r1" refl)

-- A sign-in between the two times.
abbrev pub between : List Call
between = issues (moment 8) PrincipalType.user "ann@example.org" [] none ∷ []

pub others : All (DrawsOther "r1") between
others = (other 8, tt)
