-- ===== src/Scoring/Group/InMemory.antt =====
-- A consumer group in memory that gets no new messages, as an instance of the interface.
use imbi_api.Prelude.{
  ℕ, ◌+◌, ◌<◌, ◌≡◌, refl, inl, inr, Bool-cases, arith, String, true, Option, none, some, [], ◌∷◌,
  ◌==◌, if◌then◌else◌, Entries, lookup, without, lookup-without,
}
use imbi_api.Queue.Outside.{Fields, delivered}
use imbi_api.Scoring.Group.{Group, Batch, has}

-- The pending messages, with how often they were delivered beyond the first time.
abbrev pub Held : Type 0
Held = Entries (Fields × ℕ)

abbrev pub count : Option (Fields × ℕ) → ℕ
count none = 0
count (some (fields, again)) = again + 1

abbrev pub times_in : Held → String → ℕ
times_in s msg = count (lookup msg s)

abbrev pub claim : Held → Batch × Held
claim [] = ([], [])
claim ((id, (fields, again)) ∷ s) =
    ((id, fields) ∷ (claim s).0, (id, (fields, again + 1)) ∷ (claim s).1)

pub times_in-claim :
    (s : Held) (msg : String)
    → times_in (claim s).1 msg
      ≡ (if has msg (claim s).0 then times_in s msg + 1 else times_in s msg)
unfolding lookup
times_in-claim [] msg = refl
times_in-claim ((id, (fields, again)) ∷ s) msg =
    let ih = times_in-claim s msg in
    elim (Bool-cases (id == msg)) [ inl e ↦ rw e refl | inr e ↦ rw e ih ]

pub claim-pending : (s : Held) (msg : String) → has msg (claim s).0 ≡ true → 0 < times_in s msg
unfolding lookup
claim-pending [] msg h = cc
claim-pending ((id, (fields, again)) ∷ s) msg h =
    let ih = claim-pending s msg in
    elim (Bool-cases (id == msg)) [
      | inl e ↦ rw e (omega arith)
      | inr e ↦ rw e (ih (ground (arith, h, e)))
    ]

pub times_in-without :
    (id : String) (s : Held) (msg : String)
    → times_in (without id s) msg ≡ (if id == msg then 0 else times_in s msg)
times_in-without id s msg =
    rw (lookup-without id msg s)
      (elim (Bool-cases (id == msg)) [ inl e ↦ rw e refl | inr e ↦ rw e refl ])

abbrev pub in_memory : Group
in_memory = record {
  State = Held;
  times = times_in;
  seen = λ s msg. true;
  xautoclaim = claim;
  xreadgroup = λ s. (some [], s);
  xpending = λ s msg. delivered (times_in s msg);
  xadd = λ fields s. (true, s);
  xack = λ id s. (true, without id s);
  times_xautoclaim = times_in-claim;
  claimed_pending = claim-pending;
  times_xreadgroup = λ s msg. refl;
  read_new = λ s msg h. refl;
  times_xadd = λ fields s msg. refl;
  times_xack = λ id s msg h. times_in-without id s msg;
  pending_seen = λ s msg h. refl;
  seen_xautoclaim = λ s msg h. refl;
  seen_xreadgroup = λ s msg h. refl;
  seen_xadd = λ fields s msg h. refl;
  seen_xack = λ id s msg h. refl;
}
