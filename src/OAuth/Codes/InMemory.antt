-- ===== src/OAuth/Codes/InMemory.antt =====
-- A store of texts with deadlines in memory, and a text format for payloads, as instances of the
-- interfaces.
use Prim.Native.Char.{Char, char, code}
use imbi_api.Prelude.{
  ℕ, ◌+◌, eqb, ltb, ◌≡◌, refl, String, Bool, true, false, Option, none, some, ◌==◌, if◌then◌else◌,
  Entries, lookup, insert, without, lookup-insert, lookup-without,
}
use imbi_api.OAuth.Codes.{CodePayload, Store, Json}
use imbi_api.Prelude.Splits.{add_char}

-- A text until its deadline.
abbrev live : Option (String × ℕ) → ℕ → Option String
live none time = none
live (some (value, deadline)) time = if ltb time deadline then some value else none

abbrev held_at : Entries (String × ℕ) → String → ℕ → Option String
held_at s key time = live (lookup key s) time

pub held-insert :
    (key other value : String) (seconds now time : ℕ) (s : Entries (String × ℕ))
    → held_at (insert key (value, now + seconds) s) other time ≡ (
        if key == other
        then (if ltb time (now + seconds) then some value else none)
        else held_at s other time)
held-insert key other value seconds now time s =
    rw (lookup-insert key other (value, now + seconds) s) (by (key == other))
  where
    by :
        (b : Bool)
        → live (if b then some (value, now + seconds) else lookup other s) time ≡ (
            if b
            then (if ltb time (now + seconds) then some value else none)
            else held_at s other time)
    by true = refl
    by false = refl

pub held-without :
    (key other : String) (time : ℕ) (s : Entries (String × ℕ))
    → held_at (without key s) other time ≡ (if key == other then none else held_at s other time)
held-without key other time s = rw (lookup-without key other s) (by (key == other))
  where
    by :
        (b : Bool)
        → live (if b then none else lookup other s) time
          ≡ (if b then none else held_at s other time)
    by true = refl
    by false = refl

abbrev pub in_memory : Store
in_memory = record {
  State = Entries (String × ℕ);
  set = λ key value seconds now s. insert key (value, now + seconds) s;
  getdel = λ key now s. (held_at s key now, without key s);
  held = held_at;
  held_set = λ key other value seconds now time s. held-insert key other value seconds now time s;
  getdel_held = λ key now s. refl;
  held_getdel = λ key other now time s. held-without key other time s;
}

abbrev mark : Char
mark = char 120 tt

abbrev stop : Char
stop = char 46 tt

-- Every character after a mark, and a stop at the end.
abbrev pub write : String → String → String
write String.[] rest = String.◌∷◌ stop rest
write (String.◌∷◌ c t) rest = String.◌∷◌ mark (String.◌∷◌ c (write t rest))

abbrev pub read : String → Option (String × String)
read String.[] = none
read (String.◌∷◌ d String.[]) = if eqb (code d) 46 then some ("", "") else none
read (String.◌∷◌ d (String.◌∷◌ c t)) =
    let later = read t in if eqb (code d) 46 then some ("", String.◌∷◌ c t) else add_char c later

pub read-write : (t rest : String) → read (write t rest) ≡ some (t, rest)
unfolding add_char
read-write String.[] String.[] = refl
read-write String.[] (String.◌∷◌ c rest) = refl
read-write (String.◌∷◌ c t) rest = rw (read-write t rest) refl

abbrev pub scope_text : Option String → String
scope_text none = ""
scope_text (some t) = String.◌∷◌ mark t

abbrev pub scope_back : String → Option String
scope_back String.[] = none
scope_back (String.◌∷◌ c t) = some t

abbrev pub write_payload : CodePayload → String
write_payload p =
    write p.client_id
      (write p.redirect_uri (write p.code_challenge (write p.principal_id (scope_text p.scope))))

abbrev pub then_read :
    {A : Type 0} → Option (String × String) → (String → String → Option A) → Option A
then_read none f = none
then_read (some (t, rest)) f = f t rest

abbrev pub read_payload : String → Option CodePayload
read_payload text = then_read (read text) λ client_id a. then_read (read a) λ redirect_uri b.
    then_read (read b) λ code_challenge c. then_read (read c) λ principal_id d. some (record {
      client_id = client_id;
      redirect_uri = redirect_uri;
      code_challenge = code_challenge;
      principal_id = principal_id;
      scope = scope_back d;
    })

scope_back-scope_text : (o : Option String) → scope_back (scope_text o) ≡ o
scope_back-scope_text none = refl
scope_back-scope_text (some t) = refl

pub read-write_payload : (p : CodePayload) → read_payload (write_payload p) ≡ some p
read-write_payload p =
    rw
      (
        read-write p.client_id _,
        read-write p.redirect_uri _,
        read-write p.code_challenge _,
        read-write p.principal_id _,
        scope_back-scope_text p.scope,
      )
      refl

abbrev pub text_format : Json
text_format = record {
  dumps = write_payload;
  loads = read_payload;
  loads_dumps = read-write_payload;
}
