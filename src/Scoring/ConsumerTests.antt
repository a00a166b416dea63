-- ===== src/Scoring/ConsumerTests.antt =====
-- A message whose processing always raises.
use imbi_api.Prelude.{
  ℕ, ◌+◌, ◌<◌, ◌≤◌, ◌≡◌, refl, inl, inr, arith, String, true, none, [], ◌∷◌, ◌==◌, Bool-cases,
  lookup, without, if_passed,
}
use imbi_api.Scoring.Group.{has}
use imbi_api.Scoring.Group.InMemory.{in_memory, Held, claim, times_in, count}
use imbi_api.Scoring.Consumer.{
  Scores, max_deliveries, World, consume_recompute, round, after_claim, handle_entries, after_entry,
  handle_entry, maybe_dead_letter, dead_letter, move, after_move, after_check, after_processing,
  acknowledge, process_message, after_match, read_entries, after_read,
}
use imbi_api.Scoring.Consumer.Drain.{consume_drains, claims_of, claims_of_le}

abbrev failing : Scores
failing = record {
  Db = ℕ;
  Project = String;
  Score = ℕ;
  Breakdown = ℕ;
  zero_score = 0;
  score_of = λ project. none;
  match_project = λ id db. none;
  compute_score = λ id db. none;
  clear_score = λ project db. (true, db);
  record_score_change = λ project score previous reason breakdown db. (true, db);
}

abbrev poison : World failing in_memory
poison = (("m1", (("project_id", "p1") ∷ [], 0)) ∷ [], 0)

-- In memory each claim has all pending messages.
claims_all : (s : Held) (msg : String) → 0 < times_in s msg → has msg (claim s).0 ≡ true
unfolding lookup
claims_all [] msg h = absurd (omega (arith, h))
claims_all ((id, (fields, again)) ∷ s) msg h = elim (Bool-cases (id == msg)) [
  | inl e ↦ rw e refl
  | inr e ↦ rw e (claims_all s msg (if_passed (λ o. 0 < count o) _ (lookup msg s) e h))
]

consume_drains_example :
    ((consume_recompute failing in_memory 7 poison).0 ≡ true)
    × (times_in (consume_recompute failing in_memory 7 poison).1.0 "m1" ≡ 0)
consume_drains_example =
    consume_drains failing in_memory (λ s msg. refl) (λ id s. refl) (λ fields s. refl) 7 poison "m1"
      (λ s. claims_all s "m1") refl (omega arith)

claims_of_le_example :
    times_in poison.0 "m1" + claims_of failing in_memory 9 poison "m1" ≤ max_deliveries
unfolding lookup
claims_of_le_example =
    claims_of_le failing in_memory (λ s msg. refl) (λ id s. refl) (λ fields s. refl) 9 poison "m1"
      refl (omega arith)

-- After three rounds the message is still tried.
tried : times_in (consume_recompute failing in_memory 3 poison).1.0 "m1" ≡ 4
unfolding consume_recompute round after_claim handle_entries after_entry handle_entry
    maybe_dead_letter dead_letter move after_move after_check after_processing acknowledge
    process_message after_match read_entries after_read lookup without
tried = refl
