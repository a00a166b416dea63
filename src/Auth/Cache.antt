-- ===== src/Auth/Cache.antt =====
-- The cache of API-key contexts: an ordered dictionary from a key's digest, oldest use first.
pub mod Laws
use imbi_api.Prelude.{
  ℕ, zero, suc, ◌+◌, ◌-◌, ◌≤◌, ◌<◌, ◌≡◌, String, Bool, true, false, Option, none, some, List, [],
  ◌∷◌, ◌++◌, ◌==◌, if◌then◌else◌, ltb, leb, Entries, lookup, insert, without, length, drop, arith,
}
use imbi_api.Auth.Types.{AuthContext}

abbrev pub cache_ttl : ℕ
cache_ttl = 60

abbrev pub cache_max_entries : ℕ
cache_max_entries = 1024

-- An entry carries the time until which it may be used.
abbrev pub Cache : Type 0
Cache = Entries (ℕ × AuthContext)

-- move_to_end
unfoldable pub move_to_end : String → ℕ × AuthContext → Cache → Cache
move_to_end h entry cache = without h cache ++ (h, entry) ∷ []

unfoldable pub use_entry :
    String → ℕ → Cache → Option (ℕ × AuthContext) → Option AuthContext × Cache
use_entry h now cache none = (none, cache)
use_entry h now cache (some (expires, ctx)) =
    if ltb expires now
    then (none, without h cache)
    else (some ctx, move_to_end h (expires, ctx) cache)

unfoldable pub cache_lookup : String → ℕ → Cache → Option AuthContext × Cache
cache_lookup h now cache = use_entry h now cache (lookup h cache)

-- The oldest entries go until there are fewer than `max`.
unfoldable pub evict : ℕ → Cache → Cache
evict max [] = []
evict max (entry ∷ newer) =
    let fewer = evict max newer in if leb max (length (entry ∷ newer)) then fewer else entry ∷ newer

unfoldable pub cache_store : String → AuthContext → ℕ → Cache → Cache
cache_store h ctx now cache = insert h (now + cache_ttl, ctx) (evict cache_max_entries cache)
