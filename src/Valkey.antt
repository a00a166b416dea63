-- ===== src/Valkey.antt =====
-- The Valkey values that the maintenance run state is kept in, as an interface: the server is not
-- part of the repository. Each law is the documented behaviour of one command on one key. A key
-- that is absent reads as the empty set or the empty hash.
pub mod InMemory
use imbi_api.Prelude.{
  ℕ, ◌+◌, ◌≤◌, ◌<◌, String, ◌≡◌, Bool, false, true, ◌||◌, Option, none, some, ◌==◌, if◌then◌else◌,
}
use imbi_api.Prelude.Int.{ℤ, pos, ◌+ℤ◌}

-- A hash field's value: text, or the decimal that HINCRBY keeps.
pub data Value : Type 0 where
  text : String → Value
  int : ℤ → Value

-- What HINCRBY counts from; it refuses a text.
abbrev pub counter : Option Value → Option ℤ
counter none = some (pos 0)
counter (some (int n)) = some n
counter (some (text t)) = none

pub record Valkey : Type 1 where
  pub IdSet : Type 0
  pub no_members : IdSet
  pub sadd : String → IdSet → IdSet
  pub spop : IdSet → Option (String × IdSet)
  pub scard : IdSet → ℕ
  pub has : String → IdSet → Bool
  pub Hash : Type 0
  pub no_fields : Hash
  pub hset : String → Value → Hash → Hash
  pub hincrby : String → ℤ → Hash → Hash
  pub hget : String → Hash → Option Value
  pub hlen : Hash → ℕ
  pub scard_empty : scard no_members ≡ 0
  pub has_empty : (x : String) → has x no_members ≡ false
  pub scard_sadd :
      (x : String) (s : IdSet) → scard (sadd x s) ≡ (if has x s then scard s else scard s + 1)
  pub has_sadd : (x y : String) (s : IdSet) → has y (sadd x s) ≡ (x == y || has y s)
  pub spop_none : (s : IdSet) → spop s ≡ none → scard s ≡ 0
  pub scard_spop :
      (s : IdSet) (x : String) (t : IdSet) → spop s ≡ some (x, t) → scard s ≡ scard t + 1
  pub has_spop :
      (s : IdSet) (x : String) (t : IdSet) (y : String)
      → spop s ≡ some (x, t)
      → has y t ≡ (if x == y then false else has y s)
  pub has_popped : (s : IdSet) (x : String) (t : IdSet) → spop s ≡ some (x, t) → has x s ≡ true
  pub hget_empty : (f : String) → hget f no_fields ≡ none
  pub hget_hset :
      (f g : String) (v : Value) (h : Hash)
      → hget g (hset f v h) ≡ (if f == g then some v else hget g h)
  pub hget_hincrby :
      (f g : String) (d n : ℤ) (h : Hash)
      → counter (hget f h) ≡ some n
      → hget g (hincrby f d h) ≡ (if f == g then some (int (n +ℤ d)) else hget g h)
  pub hlen_empty : hlen no_fields ≡ 0
  pub hlen_hset : (f : String) (v : Value) (h : Hash) → hlen (hset f v h) ≤ hlen h + 1
  pub hlen_hset_pos : (f : String) (v : Value) (h : Hash) → 0 < hlen (hset f v h)
  pub hlen_hincrby_pos : (f : String) (d : ℤ) (h : Hash) → 0 < hlen (hincrby f d h)
