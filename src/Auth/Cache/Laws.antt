-- ===== src/Auth/Cache/Laws.antt =====
-- What the cache of API-key contexts keeps, for how long, and how much of it.
use imbi_api.Prelude.{
  ℕ, suc, ◌+◌, ◌-◌, ◌≤◌, ◌<◌, ◌≡◌, refl, String, Option, none, some, [], ◌∷◌, ◌==◌, eq_iff, eq_refl,
  if◌then◌else◌, ltb, leb, lookup, insert, without, lookup-insert, length, drop, length-append, All,
  All-append, arith, Bool-cases, inl, inr, subst,
}
use imbi_api.Auth.Types.{AuthContext}
use imbi_api.Auth.Cache.{
  Cache, cache_ttl, cache_max_entries, cache_lookup, cache_store, evict, move_to_end, use_entry,
}

-- Eviction drops the oldest entries, just as many as leave fewer than `max`.
pub evict-drop :
    (max : ℕ) (cache : Cache) → 1 ≤ max → evict max cache ≡ drop (suc (length cache) - max) cache
unfolding evict
evict-drop max [] h = ground arith
evict-drop max (e ∷ cache) h = elim (Bool-cases (leb max (suc (length cache)))) [
  | inl full ↦
      let more : suc (suc (length cache)) - max ≡ suc (suc (length cache) - max) =
        ground (arith, full) in
      rw (full, more) (evict-drop max cache h)
  | inr room ↦
      let less : suc (suc (length cache)) - max ≡ 0 = ground (arith, room) in rw (room, less) refl
]

length-insert :
    (h : String) (v : ℕ × AuthContext) (xs : Cache) → length (insert h v xs) ≤ suc (length xs)
unfolding insert
length-insert h v [] = omega arith
length-insert h v ((k, w) ∷ xs) = ground (arith, length-insert h v xs)

length-without : (h : String) (xs : Cache) → length (without h xs) ≤ length xs
unfolding without
length-without h [] = omega arith
length-without h ((k, w) ∷ xs) = ground (arith, length-without h xs)

length-without_found :
    (h : String) (v : ℕ × AuthContext) (xs : Cache)
    → lookup h xs ≡ some v
    → length (without h xs) < length xs
unfolding without lookup
length-without_found h v [] e = cc
length-without_found h v ((k, w) ∷ xs) e = elim (Bool-cases (k == h)) [
  | inl here ↦ ground (arith, here, length-without h xs)
  | inr there ↦
      let ih = length-without_found h v xs (ground (arith, there, e)) in ground (arith, there, ih)
]

length-evict : (max : ℕ) (cache : Cache) → 1 ≤ max → length (evict max cache) < max
unfolding evict
length-evict max [] h = omega arith
length-evict max (e ∷ cache) h = ground (arith, length-evict max cache h)

pub length-cache_store :
    (h : String) (ctx : AuthContext) (now : ℕ) (cache : Cache)
    → length (cache_store h ctx now cache) ≤ cache_max_entries
unfolding cache_store
length-cache_store h ctx now cache = ground (
  arith,
  length-insert h (now + cache_ttl, ctx) (evict cache_max_entries cache),
  length-evict cache_max_entries cache (omega arith),
)

length-use_entry :
    (h : String) (now : ℕ) (cache : Cache) (found : Option (ℕ × AuthContext))
    → lookup h cache ≡ found
    → length (use_entry h now cache found).1 ≤ length cache
unfolding use_entry move_to_end
length-use_entry h now cache none e = omega arith
length-use_entry h now cache (some (expires, ctx)) e = elim (Bool-cases (ltb expires now)) [
  | inl old ↦ rw old (length-without h cache)
  | inr live ↦ rw live (
      ground (
        arith,
        length-without_found h (expires, ctx) cache e,
        length-append (without h cache) ((h, (expires, ctx)) ∷ []),
      ))
]

pub length-cache_lookup :
    (h : String) (now : ℕ) (cache : Cache) → length (cache_lookup h now cache).1 ≤ length cache
unfolding cache_lookup
length-cache_lookup h now cache = length-use_entry h now cache (lookup h cache) refl

-- A stored context is found until its time to live is over, and not after that, whatever the cache
-- held before.
pub cache_lookup-cache_store :
    (h : String) (ctx : AuthContext) (stored now : ℕ) (cache : Cache)
    → (cache_lookup h now (cache_store h ctx stored cache)).0
      ≡ (if ltb (stored + cache_ttl) now then none else some ctx)
unfolding cache_lookup cache_store use_entry
cache_lookup-cache_store h ctx stored now cache =
    rw (lookup-insert h h (stored + cache_ttl, ctx) (evict cache_max_entries cache), eq_refl)
      (ground arith)

-- What holds of every entry is kept by the operations of the cache.
module _ (P : String × (ℕ × AuthContext) → Type 0) where
  All-evict : (max : ℕ) (cache : Cache) → All P cache → All P (evict max cache)
  unfolding evict
  All-evict max [] h = h
  All-evict max (e ∷ cache) h = elim (Bool-cases (leb max (suc (length cache)))) [
    | inl full ↦ rw full (All-evict max cache h.1)
    | inr room ↦ rw room h
  ]

  All-without : (key : String) (cache : Cache) → All P cache → All P (without key cache)
  unfolding without
  All-without key [] h = h
  All-without key ((k, v) ∷ cache) h = elim (Bool-cases (k == key)) [
    | inl here ↦ rw here (All-without key cache h.1)
    | inr there ↦ rw there (h.0, All-without key cache h.1)
  ]

  All-insert :
      (key : String) (v : ℕ × AuthContext) (cache : Cache)
      → P (key, v)
      → All P cache
      → All P (insert key v cache)
  unfolding insert
  All-insert key v [] p h = (p, h)
  All-insert key v ((k, w) ∷ cache) p h = elim (Bool-cases (k == key)) [
    | inl here ↦ rw here (p, h.1)
    | inr there ↦ rw there (h.0, All-insert key v cache p h.1)
  ]

  pub All-lookup :
      (key : String) (v : ℕ × AuthContext) (cache : Cache)
      → lookup key cache ≡ some v
      → All P cache
      → P (key, v)
  unfolding lookup
  All-lookup key v [] e h = cc
  All-lookup key v ((k, w) ∷ cache) e h = elim (Bool-cases (k == key)) [
    | inl here ↦
        let name : k ≡ key = ground (arith, here, eq_iff k key) in
        let value : some w ≡ some v = ground (arith, here, e) in
        let same : (k, w) ≡ (key, v) = cc in subst P same h.0
    | inr there ↦ All-lookup key v cache (ground (arith, there, e)) h.1
  ]

  pub All-cache_store :
      (key : String) (ctx : AuthContext) (now : ℕ) (cache : Cache)
      → P (key, (now + cache_ttl, ctx))
      → All P cache
      → All P (cache_store key ctx now cache)
  unfolding cache_store
  All-cache_store key ctx now cache p h =
      All-insert key (now + cache_ttl, ctx) (evict cache_max_entries cache) p
        (All-evict cache_max_entries cache h)

  All-use_entry :
      (key : String) (now : ℕ) (cache : Cache) (found : Option (ℕ × AuthContext))
      → lookup key cache ≡ found
      → All P cache
      → All P (use_entry key now cache found).1
  unfolding use_entry move_to_end
  All-use_entry key now cache none e h = h
  All-use_entry key now cache (some (expires, ctx)) e h = elim (Bool-cases (ltb expires now)) [
    | inl old ↦ rw old (All-without key cache h)
    | inr live ↦ rw live (
        All-append P (without key cache) ((key, (expires, ctx)) ∷ []) (All-without key cache h)
          (All-lookup key (expires, ctx) cache e h, tt))
  ]

  pub All-cache_lookup :
      (key : String) (now : ℕ) (cache : Cache) → All P cache → All P (cache_lookup key now cache).1
  unfolding cache_lookup
  All-cache_lookup key now cache h = All-use_entry key now cache (lookup key cache) refl h
