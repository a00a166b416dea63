-- ===== src/OAuth/Codes/Refines.antt =====
-- The store of codes behaves as a partial function from codes to payloads that forgets.

use text.Mathlib.TextLemmas.{append_cancel_left}
use imbi_api.Prelude.{
  ℕ, ◌+◌, ltb, ◌≡◌, refl, arith, eq_iff, eq_refl, inl, inr, String, true, false, Option, none, some,
  List, [], ◌∷◌, ◌==◌, if◌then◌else◌, Bool-cases,
}
use imbi_api.Prelude.Replies.{Reply, ok}
use imbi_api.OAuth.Codes.{
  CodePayload, Store, Json, code_key, ttl_seconds, issue_code, payload_of, consume_code,
}

key_eq : (a b : String) → (code_key a == code_key b) ≡ (a == b)
unfolding code_key
key_eq a b = elim (Bool-cases (a == b)) [
  | inl e ↦ let same : a ≡ b = (eq_iff a b).0 e in rw (same, eq_refl b, eq_refl (code_key b)) refl
  | inr e ↦ rw e (apart a b e)
]
  where
    apart : (x y : String) → (x == y) ≡ false → (code_key x == code_key y) ≡ false
    apart x y e = elim (Bool-cases (code_key x == code_key y)) [
      | inr f ↦ f
      | inl f ↦
          let same : x ≡ y =
            append_cancel_left "oauth:authcode:" x y ((eq_iff (code_key x) (code_key y)).0 f) in
          let hit : (x == y) ≡ true = (eq_iff x y).1 same in cc
    ]

-- A call on the store of codes.
pub data CodeCall : Type 0 where
  issues : String → CodePayload → ℕ → CodeCall
  consumes : String → ℕ → CodeCall

-- What is promised: the payload that a code stands for, at a time.
abbrev pub Promise : Type 0
Promise = String → ℕ → Option CodePayload

abbrev pub promise_step : CodeCall → Promise → Promise
promise_step (issues code payload now) f other time =
    if code == other
    then (if ltb time (now + ttl_seconds) then some payload else none)
    else f other time
promise_step (consumes code now) f other time = if code == other then none else f other time

-- A code is answered by what it stands for, once.
abbrev pub promise_answers : List CodeCall → Promise → List (Reply (Option CodePayload))
promise_answers [] f = []
promise_answers (issues code payload now ∷ calls) f =
    promise_answers calls (promise_step (issues code payload now) f)
promise_answers (consumes code now ∷ calls) f =
    ok (f code now) ∷ promise_answers calls (promise_step (consumes code now) f)

module _ (v : Store) (json : Json) where
  abbrev pub code_answers : List CodeCall → v.State → List (Reply (Option CodePayload))
  code_answers [] s = []
  code_answers (issues code payload now ∷ calls) s =
      code_answers calls (issue_code v json code payload now s)
  code_answers (consumes code now ∷ calls) s =
      (consume_code v json code now s).0 ∷ code_answers calls (consume_code v json code now s).1

  abbrev raw_of : Option CodePayload → Option String
  raw_of none = none
  raw_of (some payload) = some (json.dumps payload)

  -- The store holds what is promised, in JSON.
  abbrev pub Keeps : v.State → Promise → Type 0
  Keeps s f = (code : String) (time : ℕ) → v.held s (code_key code) time ≡ raw_of (f code time)

  payload-raw_of : (o : Option CodePayload) → payload_of v json (raw_of o) ≡ ok o
  unfolding payload_of
  payload-raw_of none = refl
  payload-raw_of (some payload) = rw (json.loads_dumps payload) refl

  pub issue-Keeps :
      (code : String) (payload : CodePayload) (now : ℕ) (s : v.State) (f : Promise)
      → Keeps s f
      → Keeps (issue_code v json code payload now s) (promise_step (issues code payload now) f)
  unfolding issue_code
  issue-Keeps code payload now s f h other time =
      let law =
        v.held_set (code_key code) (code_key other) (json.dumps payload) ttl_seconds now time s in
      let same = key_eq code other in let before = h other time in ground (arith, law, same, before)

  pub consume-Keeps :
      (code : String) (now : ℕ) (s : v.State) (f : Promise)
      → Keeps s f
      → Keeps (consume_code v json code now s).1 (promise_step (consumes code now) f)
  unfolding consume_code
  consume-Keeps code now s f h other time =
      let law = v.held_getdel (code_key code) (code_key other) now time s in
      let same = key_eq code other in let before = h other time in ground (arith, law, same, before)

  pub consume_code-Keeps :
      (code : String) (now : ℕ) (s : v.State) (f : Promise)
      → Keeps s f
      → (consume_code v json code now s).0 ≡ ok (f code now)
  unfolding consume_code
  consume_code-Keeps code now s f h =
      rw (v.getdel_held (code_key code) now s, h code now) (payload-raw_of (f code now))

  -- Over any sequence of calls the store answers as the promise does: a code is exchanged for the
  -- payload it was issued for, within a minute, and once.
  pub answers_refine :
      (calls : List CodeCall) (s : v.State) (f : Promise)
      → Keeps s f
      → code_answers calls s ≡ promise_answers calls f
  answers_refine [] s f h = refl
  answers_refine (issues code payload now ∷ calls) s f h =
      answers_refine calls (issue_code v json code payload now s)
        (promise_step (issues code payload now) f) (issue-Keeps code payload now s f h)
  answers_refine (consumes code now ∷ calls) s f h =
      let one = consume_code-Keeps code now s f h in
      let rest =
        answers_refine calls (consume_code v json code now s).1 (promise_step (consumes code now) f)
          (consume-Keeps code now s f h) in
      cc
