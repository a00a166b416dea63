-- ===== src/Valkey/InMemory.antt =====
-- A server in memory that meets the interface: sets and hashes as lists, SPOP takes the first
-- member.
use imbi_api.Prelude.{
  ℕ, ◌+◌, ◌≤◌, ◌<◌, String, ◌≡◌, refl, true, false, Option, none, some, List, [], ◌∷◌, arith, ◌==◌,
  eq_iff, eq_refl, if◌then◌else◌, length, member, lookup, insert, lookup-insert,
}
use imbi_api.Prelude.Int.{ℤ, pos, ◌+ℤ◌}
use imbi_api.Valkey.{Valkey, Value, int, counter}

remove : String → List String → List String
remove x [] = []
remove x (y ∷ ys) = let rest = remove x ys in if x == y then rest else y ∷ rest

-- The number of different texts in a list.
unfoldable pub distinct : List String → ℕ
distinct [] = 0
distinct (x ∷ xs) = if member x xs then distinct xs else distinct xs + 1

unfoldable pub pop : List String → Option (String × List String)
unfolding remove
pop [] = none
pop (x ∷ xs) = some (x, remove x xs)

member-remove :
    (x y : String) (ys : List String)
    → member y (remove x ys) ≡ (if x == y then false else member y ys)
unfolding remove
member-remove x y [] = ground arith
member-remove x y (z ∷ zs) =
    ground (arith, member-remove x y zs, eq_iff x z, eq_iff x y, eq_iff z y)

distinct-remove :
    (x : String) (ys : List String)
    → distinct (remove x ys) + (if member x ys then 1 else 0) ≡ distinct ys
unfolding remove distinct
distinct-remove x [] = refl
distinct-remove x (y ∷ ys) =
    ground (arith, distinct-remove x ys, member-remove x y ys, eq_iff x y, eq_iff y x)

pub distinct-pop :
    (s : List String) (x : String) (t : List String)
    → pop s ≡ some (x, t)
    → distinct s ≡ distinct t + 1
unfolding pop distinct
distinct-pop (x ∷ xs) y t e = ground (arith, distinct-remove x xs)
distinct-pop [] y t e = ground arith

pub member-pop :
    (s : List String) (x : String) (t : List String) (y : String)
    → pop s ≡ some (x, t)
    → member y t ≡ (if x == y then false else member y s)
unfolding pop
member-pop (x ∷ xs) z t y e = ground (arith, member-remove x y xs)
member-pop [] z t y e = ground arith

pub member-popped :
    (s : List String) (x : String) (t : List String) → pop s ≡ some (x, t) → member x s ≡ true
unfolding pop
member-popped (x ∷ xs) z t e = ground (arith, eq_refl x, eq_iff x z)
member-popped [] z t e = ground arith

pub distinct-pop-none : (s : List String) → pop s ≡ none → distinct s ≡ 0
unfolding pop distinct
distinct-pop-none [] e = refl
distinct-pop-none (x ∷ xs) e = ground arith

value : Option ℤ → ℤ
value none = pos 0
value (some n) = n

unfoldable pub increment : String → ℤ → List (String × Value) → List (String × Value)
unfolding value insert lookup ◌+ℤ◌
increment f d h = insert f (int (value (counter (lookup f h)) +ℤ d)) h

pub lookup-increment :
    (f g : String) (d n : ℤ) (h : List (String × Value))
    → counter (lookup f h) ≡ some n
    → lookup g (increment f d h) ≡ (if f == g then some (int (n +ℤ d)) else lookup g h)
unfolding increment
lookup-increment f g d n h e = rw (e, lookup-insert)

pub length-insert :
    (f : String) (v : Value) (h : List (String × Value)) → length (insert f v h) ≤ length h + 1
unfolding insert
length-insert f v [] = omega arith
length-insert f v ((g, w) ∷ h) = ground (arith, length-insert f v h)

pub length-insert_pos :
    (f : String) (v : Value) (h : List (String × Value)) → 0 < length (insert f v h)
unfolding insert
length-insert_pos f v [] = omega arith
length-insert_pos f v ((g, w) ∷ h) = ground arith

pub length-increment_pos :
    (f : String) (d : ℤ) (h : List (String × Value)) → 0 < length (increment f d h)
unfolding increment
length-increment_pos f d h = length-insert_pos f _ h

pub lookup-nil : (f : String) → lookup {A = Value} f [] ≡ none
unfolding lookup
lookup-nil f = refl

pub distinct-nil : distinct [] ≡ 0
unfolding distinct
distinct-nil = refl

pub distinct-cons :
    (x : String) (s : List String)
    → distinct (x ∷ s) ≡ (if member x s then distinct s else distinct s + 1)
unfolding distinct
distinct-cons x s = refl

abbrev pub in_memory : Valkey
in_memory = record {
  IdSet = List String;
  no_members = [];
  sadd = ◌∷◌;
  spop = pop;
  scard = distinct;
  has = member;
  Hash = List (String × Value);
  no_fields = [];
  hset = insert;
  hincrby = increment;
  hget = lookup;
  hlen = length;
  scard_empty = distinct-nil;
  has_empty = λ x. refl;
  scard_sadd = distinct-cons;
  has_sadd = λ x y s. refl;
  spop_none = distinct-pop-none;
  scard_spop = distinct-pop;
  has_spop = member-pop;
  has_popped = member-popped;
  hget_empty = lookup-nil;
  hget_hset = lookup-insert;
  hget_hincrby = lookup-increment;
  hlen_empty = refl;
  hlen_hset = length-insert;
  hlen_hset_pos = length-insert_pos;
  hlen_hincrby_pos = length-increment_pos;
}
