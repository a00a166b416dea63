-- ===== src/Auth/Keys/Revocation.antt =====
-- How long a revoked API key is still accepted: the cache is the only place that remembers it.
use imbi_api.Prelude.{
  ℕ, ◌+◌, ◌≤◌, ◌<◌, ◌≡◌, ◌≢◌, refl, sym, String, Bool, true, false, Option, none, some, List, [],
  ltb, lookup, arith, All, subst,
}
use imbi_api.Auth.Types.{AuthContext, Reply, ok, refuse, break}
use imbi_api.Auth.Cache.{Cache, cache_ttl, cache_lookup, use_entry}
use imbi_api.Auth.Cache.Laws.{All-lookup, All-cache_store, All-cache_lookup}
use imbi_api.Auth.Directory.{Directory, KeyRow}
use imbi_api.Auth.KeyFormat.{parse_key, key_name}
use imbi_api.Auth.Keys.{
  refuse_if, is_orphan, check_row, KeyState, after_check, after_lookup, after_parse,
  authenticate_api_key,
}

-- The key's row is gone, or marked as revoked.
abbrev pub IsRevoked : Option KeyRow → Type 0
IsRevoked none = Unit
IsRevoked (some row) = row.key.revoked ≡ true

abbrev pub HasRevoked : Directory → Option (String × String) → Type 0
HasRevoked d none = Unit
HasRevoked d (some (id, secret)) = IsRevoked (d.key_row (key_name id))

abbrev pub IsRefused : Reply AuthContext → Type 0
IsRefused answer = (detail : String) × (answer ≡ refuse 401 detail)

refuse_if-IsRefused :
    (b : Bool) (detail : String) (rest : Reply AuthContext)
    → IsRefused rest
    → IsRefused (refuse_if b 401 detail rest)
refuse_if-IsRefused true detail rest h = (detail, refl)
refuse_if-IsRefused false detail rest h = h

refuse_if-true :
    (b : Bool) (detail : String) (rest : Reply AuthContext)
    → b ≡ true
    → IsRefused (refuse_if b 401 detail rest)
refuse_if-true true detail rest e = (detail, refl)
refuse_if-true false detail rest e = cc

check_row-IsRefused :
    (d : Directory) (now : ℕ) (key_id secret : String) (row : Option KeyRow)
    → IsRevoked row
    → IsRefused (check_row d now key_id secret row)
unfolding check_row
check_row-IsRefused d now key_id secret none h = (_, refl)
check_row-IsRefused d now key_id secret (some row) h =
    refuse_if-IsRefused (is_orphan d row.user row.service_account) _ _
      (refuse_if-true row.key.revoked "Invalid or revoked API key" _ h)

-- The entry is of another digest or may be used until `t` at most.
abbrev pub ExpiresBy : String → ℕ → String × (ℕ × AuthContext) → Type 0
ExpiresBy h t entry = entry.0 ≡ h → entry.1.0 ≤ t

module _ (digest : String → String) where
  -- Calls before the time `r` of the revocation, with any answers of the directory, and calls after
  -- it, which find the key revoked. Two keys that are used have two digests.
  pub data Before (r : ℕ) : KeyState → Type 0 where
    start : Before r (record { cache = []; stamped = [] })
    call :
        (d : Directory) (wall mono : ℕ) (k : String) {st : KeyState}
        → mono ≤ r
        → Before r st
        → Before r (authenticate_api_key digest d wall mono k st).1

  pub data After (key : String) (r : ℕ) : KeyState → Type 0 where
    revoked : {st : KeyState} → Before r st → After key r st
    call :
        (d : Directory) (wall mono : ℕ) (k : String) {st : KeyState}
        → HasRevoked d (parse_key key)
        → (digest k ≡ digest key → k ≡ key)
        → After key r st
        → After key r (authenticate_api_key digest d wall mono k st).1

  module _ (P : String × (ℕ × AuthContext) → Type 0) (d : Directory) where
    All-after_check :
        (mono : ℕ) (key key_id : String) (st : KeyState) (answer : Reply AuthContext)
        → ((ctx : AuthContext) → answer ≡ ok ctx → P (digest key, (mono + cache_ttl, ctx)))
        → All P st.cache
        → All P (after_check digest d mono key key_id st answer).1.cache
    unfolding after_check
    All-after_check mono key key_id st (ok ctx) new h =
        All-cache_store P (digest key) ctx mono st.cache (new ctx refl) h
    All-after_check mono key key_id st (refuse code detail) new h = h
    All-after_check mono key key_id st break new h = h

    All-after_lookup :
        (wall mono : ℕ) (key key_id secret : String) (stamped : List String)
        (r : Option AuthContext × Cache)
        → ((ctx : AuthContext)
            → check_row d wall key_id secret (d.key_row key_id) ≡ ok ctx
            → P (digest key, (mono + cache_ttl, ctx)))
        → All P r.1
        → All P (after_lookup digest d wall mono key key_id secret stamped r).1.cache
    unfolding after_lookup
    All-after_lookup wall mono key key_id secret stamped (some ctx, cache) new h = h
    All-after_lookup wall mono key key_id secret stamped (none, cache) new h =
        All-after_check mono key key_id _ (check_row d wall key_id secret (d.key_row key_id)) new h

    All-after_parse :
        (wall mono : ℕ) (key : String) (st : KeyState) (parts : Option (String × String))
        → ((id secret : String) (ctx : AuthContext)
            → parts ≡ some (id, secret)
            → check_row d wall (key_name id) secret (d.key_row (key_name id)) ≡ ok ctx
            → P (digest key, (mono + cache_ttl, ctx)))
        → All P st.cache
        → All P (after_parse digest d wall mono key st parts).1.cache
    unfolding after_parse
    All-after_parse wall mono key st none new h = h
    All-after_parse wall mono key st (some (id, secret)) new h =
        All-after_lookup wall mono key (key_name id) secret st.stamped _
          (λ ctx e. new id secret ctx refl e) (All-cache_lookup P (digest key) mono st.cache h)

    pub All-authenticate_api_key :
        (wall mono : ℕ) (key : String) (st : KeyState)
        → ((id secret : String) (ctx : AuthContext)
            → parse_key key ≡ some (id, secret)
            → check_row d wall (key_name id) secret (d.key_row (key_name id)) ≡ ok ctx
            → P (digest key, (mono + cache_ttl, ctx)))
        → All P st.cache
        → All P (authenticate_api_key digest d wall mono key st).1.cache
    unfolding authenticate_api_key
    All-authenticate_api_key wall mono key st new h =
        All-after_parse wall mono key st (parse_key key) new h

  Before-ExpiresBy :
      (h : String) (r : ℕ) (st : KeyState)
      → Before r st
      → All (ExpiresBy h (r + cache_ttl)) st.cache
  Before-ExpiresBy h r _ start = tt
  Before-ExpiresBy h r _ (call d wall mono k {st} early b) =
      All-authenticate_api_key (ExpiresBy h (r + cache_ttl)) d wall mono k st
        (λ id secret ctx p e same. omega arith) (Before-ExpiresBy h r st b)

  never_ok :
      (d : Directory) (wall : ℕ) (parts : Option (String × String)) (id secret : String)
      (ctx : AuthContext)
      → HasRevoked d parts
      → parts ≡ some (id, secret)
      → check_row d wall (key_name id) secret (d.key_row (key_name id)) ≢ ok ctx
  never_ok d wall parts id secret ctx h e found =
      let (detail, refused) =
        check_row-IsRefused d wall (key_name id) secret _ (subst (HasRevoked d) e h) in
      cc

  After-ExpiresBy :
      (key : String) (r : ℕ) (st : KeyState)
      → After key r st
      → All (ExpiresBy (digest key) (r + cache_ttl)) st.cache
  After-ExpiresBy key r st (revoked b) = Before-ExpiresBy (digest key) r st b
  After-ExpiresBy key r _ (call d wall mono k {st} gone apart a) =
      All-authenticate_api_key (ExpiresBy (digest key) (r + cache_ttl)) d wall mono k st
        (λ id secret ctx p e same. absurd (
          never_ok d wall (parse_key k) id secret ctx
            (subst (λ x. HasRevoked d (parse_key x)) (sym (apart same)) gone) p e))
        (After-ExpiresBy key r st a)

  use_entry_old :
      (h : String) (t now : ℕ) (cache : Cache) (found : Option (ℕ × AuthContext))
      → lookup h cache ≡ found
      → All (ExpiresBy h t) cache
      → t < now
      → (use_entry h now cache found).0 ≡ none
  unfolding use_entry
  use_entry_old h t now cache none e entries late = refl
  use_entry_old h t now cache (some (expires, ctx)) e entries late =
      let bound : expires ≤ t = All-lookup (ExpiresBy h t) h (expires, ctx) cache e entries refl in
      let old : ltb expires now ≡ true = ground (arith, bound, late) in rw old refl

  after_check-IsRefused :
      (d : Directory) (mono : ℕ) (key key_id : String) (st : KeyState) (answer : Reply AuthContext)
      → IsRefused answer
      → IsRefused (after_check digest d mono key key_id st answer).0
  unfolding after_check
  after_check-IsRefused d mono key key_id st (ok ctx) h = let (detail, e) = h in cc
  after_check-IsRefused d mono key key_id st (refuse code detail) h = h
  after_check-IsRefused d mono key key_id st break h = h

  after_lookup-IsRefused :
      (d : Directory) (wall mono : ℕ) (key key_id secret : String) (stamped : List String)
      (r : Option AuthContext × Cache)
      → r.0 ≡ none
      → IsRevoked (d.key_row key_id)
      → IsRefused (after_lookup digest d wall mono key key_id secret stamped r).0
  unfolding after_lookup
  after_lookup-IsRefused d wall mono key key_id secret stamped (some ctx, cache) e h = cc
  after_lookup-IsRefused d wall mono key key_id secret stamped (none, cache) e h =
      after_check-IsRefused d mono key key_id _ (check_row d wall key_id secret (d.key_row key_id))
        (check_row-IsRefused d wall key_id secret (d.key_row key_id) h)

  after_parse-IsRefused :
      (d : Directory) (wall mono : ℕ) (key : String) (t : ℕ) (st : KeyState)
      (parts : Option (String × String))
      → All (ExpiresBy (digest key) t) st.cache
      → t < mono
      → HasRevoked d parts
      → IsRefused (after_parse digest d wall mono key st parts).0
  unfolding after_parse cache_lookup
  after_parse-IsRefused d wall mono key t st none entries late h = (_, refl)
  after_parse-IsRefused d wall mono key t st (some (id, secret)) entries late h =
      after_lookup-IsRefused d wall mono key (key_name id) secret st.stamped _
        (use_entry_old (digest key) t mono st.cache _ refl entries late) h

  -- A key that was revoked, or deleted, at the time `r` is refused with 401 as soon as `cache_ttl`
  -- seconds have passed, whatever calls were made before the revocation and since.
  pub revoked_key-IsRefused :
      (key : String) (r : ℕ) (st : KeyState) (d : Directory) (wall mono : ℕ)
      → After key r st
      → HasRevoked d (parse_key key)
      → r + cache_ttl < mono
      → IsRefused (authenticate_api_key digest d wall mono key st).0
  unfolding authenticate_api_key
  revoked_key-IsRefused key r st d wall mono history gone late =
      after_parse-IsRefused d wall mono key (r + cache_ttl) st (parse_key key)
        (After-ExpiresBy key r st history) late gone
