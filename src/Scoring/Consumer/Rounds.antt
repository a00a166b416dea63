-- ===== src/Scoring/Consumer/Rounds.antt =====
-- What a round of the consumer does to the delivery counts, where Valkey answers.
use imbi_api.Prelude.{
  ℕ, ◌+◌, ◌<◌, ◌≡◌, ◌⊎◌, inl, inr, refl, sym, ◌∙◌, subst, arith, String, Bool, true, false, Option,
  none, some, if◌then◌else◌, if_passed, if_both,
}
use imbi_api.Queue.Outside.{Fields, delivered}
use imbi_api.Scoring.Group.{Group, Batch, has}
use imbi_api.Scoring.Consumer.{
  Scores, max_deliveries, World, handle_entries, after_read, read_entries, after_claim, round,
}
use imbi_api.Scoring.Consumer.Deliveries.{Stays-handle_entries, after_entry-then}
use imbi_api.Scoring.Consumer.Keeps.{after_entry-keeps, handle_entries-keeps}

-- What a round does to the count of a pending message: it leaves, or it stays with one delivery
-- more if it was claimed, and then has few deliveries.
abbrev pub Delivered : Bool → ℕ → ℕ → Type 0
Delivered true before after = (after ≡ 0) ⊎ ((after ≡ before + 1) × (after < max_deliveries))
Delivered false before after = (after ≡ 0) ⊎ (after ≡ before)

Delivered-then :
    (claimed : Bool) (before after last : ℕ)
    → Delivered claimed before after
    → (last ≡ 0) ⊎ (last ≡ after)
    → Delivered claimed before last
Delivered-then claimed before after last h (inr same) =
    subst (Delivered claimed before) (sym same) h
Delivered-then true before after last h (inl gone_now) = inl gone_now
Delivered-then false before after last h (inl gone_now) = inl gone_now

Delivered-few :
    (claimed : Bool) (before after : ℕ)
    → Delivered claimed before after
    → before < max_deliveries
    → after < max_deliveries
Delivered-few true before after (inl left) small = omega (arith, left)
Delivered-few true before after (inr (_, few)) small = few
Delivered-few false before after (inl left) small = omega (arith, left)
Delivered-few false before after (inr same) small = omega (arith, same, small)

-- From what the claim and the batch do to a count.
Delivered-batch :
    (claimed : Bool) (before now after : ℕ)
    → now ≡ (if claimed then before + 1 else before)
    → (after ≡ 0) ⊎ ((after ≡ now) × (claimed ≡ true → now < max_deliveries))
    → Delivered claimed before after
Delivered-batch true before now after e (inl left) = inl left
Delivered-batch true before now after e (inr (same, few)) =
    inr (same ∙ e, subst (λ k. k < max_deliveries) (sym same) (few refl))
Delivered-batch false before now after e (inl left) = inl left
Delivered-batch false before now after e (inr (same, few)) = inr (same ∙ e)

module _ (p : Scores) (g : Group) where
  pub seen-handle_entries :
      (check : Bool) (batch : Batch) (w : World p g) (msg : String)
      → g.seen w.0 msg ≡ true
      → g.seen (handle_entries p g check batch w).1.0 msg ≡ true
  seen-handle_entries check batch w msg h =
      handle_entries-keeps p g (λ s. g.seen s msg ≡ true) (λ fields s. g.seen_xadd fields s msg)
        (λ id s. g.seen_xack id s msg) check batch w h

  seen-after_read :
      (msg : String) (db : p.Db) (r : Option Batch × g.State)
      → g.seen r.1 msg ≡ true
      → g.seen (after_read p g db r).1.0 msg ≡ true
  unfolding after_read
  seen-after_read msg db (none, s) h = h
  seen-after_read msg db (some batch, s) h = seen-handle_entries false batch (s, db) msg h

  seen-read_entries :
      (msg : String) (w : World p g)
      → g.seen w.0 msg ≡ true
      → g.seen (read_entries p g w).1.0 msg ≡ true
  unfolding read_entries
  seen-read_entries msg (s, db) h =
      seen-after_read msg db (g.xreadgroup s) (g.seen_xreadgroup s msg h)

  seen-after_claim :
      (msg : String) (db : p.Db) (r : Batch × g.State)
      → g.seen r.1 msg ≡ true
      → g.seen (after_claim p g db r).1.0 msg ≡ true
  unfolding after_claim
  seen-after_claim msg db (stale, s) h =
      after_entry-keeps p g (λ t. g.seen t msg ≡ true) (λ fields t. g.seen_xadd fields t msg)
        (λ id t. g.seen_xack id t msg) (read_entries p g) (handle_entries p g true stale (s, db))
        (seen-read_entries msg) (seen-handle_entries true stale (s, db) msg h)

  pub seen-round :
      (msg : String) (w : World p g) → g.seen w.0 msg ≡ true → g.seen (round p g w).1.0 msg ≡ true
  unfolding round
  seen-round msg (s, db) h = seen-after_claim msg db (g.xautoclaim s) (g.seen_xautoclaim s msg h)

  module _ (counts : (s : g.State) (msg : String) → g.xpending s msg ≡ delivered (g.times s msg))
      (acks : (id : String) (s : g.State) → (g.xack id s).0 ≡ true)
      (adds : (fields : Fields) (s : g.State) → (g.xadd fields s).0 ≡ true) where
    -- Reading new messages ends without an exception; a message that it reads is pending at most
    -- once delivered, and one that was seen leaves or stays as it is.
    abbrev Leaves : g.State → g.State → String → Type 0
    Leaves s t msg = (g.times t msg ≡ 0) ⊎ (g.times t msg ≡ g.times s msg)

    read-Leaves :
        (msg : String) (s : g.State) (db : p.Db) (r : Option Batch × g.State)
        → ((after_read p g db r).0 ≡ true) × Leaves r.1 (after_read p g db r).1.0 msg
    unfolding after_read
    read-Leaves msg s db (none, t) = (refl, inr refl)
    read-Leaves msg s db (some batch, t) =
        let (ends, stays) = Stays-handle_entries p g counts acks adds batch msg false (t, db) in
        (ends, elim stays [ inl left ↦ inl left | inr (same, _) ↦ inr same ])

    stale-Delivered :
        (n : ℕ) (msg : String) (stale : Batch) (w : World p g)
        → g.times w.0 msg ≡ (if has msg stale then n + 1 else n)
        → ((handle_entries p g true stale w).0 ≡ true)
          × Delivered (has msg stale) n (g.times (handle_entries p g true stale w).1.0 msg)
    stale-Delivered n msg stale w e =
        let (ends, stays) = Stays-handle_entries p g counts acks adds stale msg true w in
        (
          ends,
          Delivered-batch (has msg stale) n _ _ e
              (elim stays [ inl left ↦ inl left | inr (same, few) ↦ inr (same, few refl) ]),
        )

    read-answers : (w : World p g) → (read_entries p g w).0 ≡ true
    unfolding read_entries
    read-answers (s, db) = (read-Leaves "" s db (g.xreadgroup s)).0

    -- A message that was seen is not read again.
    read-seen :
        (msg : String) (w : World p g)
        → g.seen w.0 msg ≡ true
        → Leaves w.0 (read_entries p g w).1.0 msg
    unfolding read_entries
    read-seen msg (s, db) h =
        let new = g.read_new s msg h in
        let same =
          if_passed (λ k. g.times (g.xreadgroup s).1 msg ≡ k) 1 (g.times s msg) new
            (g.times_xreadgroup s msg) in
        elim (read-Leaves msg s db (g.xreadgroup s)).1 [
          | inl left ↦ inl left
          | inr kept_as ↦ inr (kept_as ∙ same)
        ]

    read-few :
        (msg : String) (w : World p g)
        → g.times w.0 msg < max_deliveries
        → g.times (read_entries p g w).1.0 msg < max_deliveries
    unfolding read_entries
    read-few msg (s, db) h = elim (read-Leaves msg s db (g.xreadgroup s)).1 [
      | inl left ↦ omega (arith, left)
      | inr same ↦
          let count = g.times_xreadgroup s msg in
          subst (λ k. k < max_deliveries) (sym (same ∙ count))
            (if_both (λ k. k < max_deliveries) _ 1 (g.times s msg) (omega arith) h)
    ]

    claim-answers : (db : p.Db) (r : Batch × g.State) → (after_claim p g db r).0 ≡ true
    unfolding after_claim
    claim-answers db (stale, s) =
        let ends = (Stays-handle_entries p g counts acks adds stale "" true (s, db)).0 in
        rw (after_entry-then p g (read_entries p g) (handle_entries p g true stale (s, db)) ends)
          (read-answers (handle_entries p g true stale (s, db)).1)

    claim-Delivered :
        (n : ℕ) (msg : String) (db : p.Db) (r : Batch × g.State)
        → g.seen r.1 msg ≡ true
        → g.times r.1 msg ≡ (if has msg r.0 then n + 1 else n)
        → Delivered (has msg r.0) n (g.times (after_claim p g db r).1.0 msg)
    unfolding after_claim
    claim-Delivered n msg db (stale, s) seen e =
        let (ends, delivered_as) = stale-Delivered n msg stale (s, db) e in
        let handled = handle_entries p g true stale (s, db) in
        let seen₁ = seen-handle_entries true stale (s, db) msg seen in
        rw (after_entry-then p g (read_entries p g) handled ends)
          (Delivered-then (has msg stale) n _ _ delivered_as (read-seen msg handled.1 seen₁))

    claim-few :
        (n : ℕ) (msg : String) (db : p.Db) (r : Batch × g.State)
        → n < max_deliveries
        → g.times r.1 msg ≡ (if has msg r.0 then n + 1 else n)
        → g.times (after_claim p g db r).1.0 msg < max_deliveries
    unfolding after_claim
    claim-few n msg db (stale, s) small e =
        let (ends, delivered_as) = stale-Delivered n msg stale (s, db) e in
        let handled = handle_entries p g true stale (s, db) in
        rw (after_entry-then p g (read_entries p g) handled ends)
          (read-few msg handled.1 (Delivered-few (has msg stale) n _ delivered_as small))

    pub round-answers : (w : World p g) → (round p g w).0 ≡ true
    unfolding round
    round-answers (s, db) = claim-answers db (g.xautoclaim s)

    pub round-Delivered :
        (msg : String) (w : World p g)
        → g.seen w.0 msg ≡ true
        → Delivered (has msg (g.xautoclaim w.0).0) (g.times w.0 msg) (g.times (round p g w).1.0 msg)
    unfolding round
    round-Delivered msg (s, db) h =
        claim-Delivered (g.times s msg) msg db (g.xautoclaim s) (g.seen_xautoclaim s msg h)
          (g.times_xautoclaim s msg)

    pub round-few :
        (msg : String) (w : World p g)
        → g.times w.0 msg < max_deliveries
        → g.times (round p g w).1.0 msg < max_deliveries
    unfolding round
    round-few msg (s, db) h =
        claim-few (g.times s msg) msg db (g.xautoclaim s) h (g.times_xautoclaim s msg)
