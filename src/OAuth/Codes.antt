-- ===== src/OAuth/Codes.antt =====
-- Authorization codes. Valkey is an interface: the two commands that are sent, with the laws of
-- their documentation; JSON and SHA-256 in base64url are arguments. A time is in seconds.
pub mod Refines
pub mod InMemory
use Prim.Native.Char.{Char, code}
use Prim.Native.String.{◌++◌, []}
use imbi_api.Prelude.{
  ℕ, ◌+◌, ◌≡◌, ltb, String, Bool, true, false, not, ◌&&◌, ◌||◌, Option, none, some, List, [], ◌∷◌,
  ◌==◌, if◌then◌else◌,
}
use imbi_api.Prelude.Replies.{Reply, ok, refuse, break}

pub record CodePayload : Type 0 where
  pub client_id : String
  pub redirect_uri : String
  pub code_challenge : String
  pub principal_id : String
  pub scope : Option String

pub record Store : Type 1 where
  pub State : Type 0
  -- SET key value EX seconds, at a time.
  pub set : String → String → ℕ → ℕ → State → State
  -- GETDEL key, at a time.
  pub getdel : String → ℕ → State → Option String × State
  -- What a key holds at a time.
  pub held : State → String → ℕ → Option String
  pub held_set :
      (key other value : String) (seconds now time : ℕ) (s : State)
      → held (set key value seconds now s) other time ≡ (
          if key == other
          then (if ltb time (now + seconds) then some value else none)
          else held s other time)
  pub getdel_held : (key : String) (now : ℕ) (s : State) → (getdel key now s).0 ≡ held s key now
  pub held_getdel :
      (key other : String) (now time : ℕ) (s : State)
      → held (getdel key now s).1 other time ≡ (if key == other then none else held s other time)

-- json.dumps and json.loads of a payload; `none` is an exception.
pub record Json : Type 0 where
  pub dumps : CodePayload → String
  pub loads : String → Option CodePayload
  pub loads_dumps : (p : CodePayload) → loads (dumps p) ≡ some p

-- f'{_KEY_PREFIX}{code}'
unfoldable pub code_key : String → String
code_key code = "oauth:authcode:" ++ code

abbrev pub ttl_seconds : ℕ
ttl_seconds = 60

module _ (v : Store) (json : Json) where
  -- The code is drawn outside.
  unfoldable pub issue_code : String → CodePayload → ℕ → v.State → v.State
  issue_code code payload now s = v.set (code_key code) (json.dumps payload) ttl_seconds now s

  unfoldable pub payload_of : Option String → Reply (Option CodePayload)
  payload_of none = ok none
  payload_of (some raw) = elim (json.loads raw) [ none ↦ break | some payload ↦ ok (some payload) ]

  unfoldable pub consume_code : String → ℕ → v.State → Reply (Option CodePayload) × v.State
  consume_code code now s =
      let (raw, rest) = v.getdel (code_key code) now s in (payload_of raw, rest)

unfoldable pub is_ascii : String → Bool
is_ascii [] = true
is_ascii (String.◌∷◌ c rest) = ltb (code c) 128 && is_ascii rest

-- secrets.compare_digest raises on a text that is not ASCII.
unfoldable pub compare_digest : String → String → Reply Bool
compare_digest expected given = if is_ascii given then ok (expected == given) else break

-- `challenge` is the verifier's SHA-256 in base64url without padding.
unfoldable pub verify_pkce : (String → String) → String → String → Reply Bool
verify_pkce challenge code_verifier code_challenge =
    if code_verifier == "" || code_challenge == ""
    then ok false
    else if not (is_ascii code_verifier)
    then ok false
    else compare_digest (challenge code_verifier) code_challenge
