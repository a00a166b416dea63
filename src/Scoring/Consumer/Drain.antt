-- ===== src/Scoring/Consumer/Drain.antt =====
-- The consumer goes on, and every message leaves the pending ones: it is processed, or it becomes a
-- dead letter.
use imbi_api.Prelude.{
  ℕ, zero, suc, ◌+◌, ◌<◌, ◌≤◌, ◌≡◌, ◌⊎◌, inl, inr, refl, ◌∙◌, subst, arith, String, Bool, true,
  false, Bool-cases, if◌then◌else◌,
}
use imbi_api.Queue.Outside.{Fields, delivered}
use imbi_api.Scoring.Group.{Group, has}
use imbi_api.Scoring.Consumer.{Scores, max_deliveries, World, round, consume_recompute}
use imbi_api.Scoring.Consumer.Deliveries.{after_entry-then}
use imbi_api.Scoring.Consumer.Rounds.{
  Delivered, seen-round, round-answers, round-Delivered, round-few,
}

-- A round from nought, where a claim is of pending messages only.
gone_stays :
    (claimed : Bool) (before after : ℕ)
    → before ≡ 0
    → (claimed ≡ true → 0 < before)
    → Delivered claimed before after
    → after ≡ 0
gone_stays true before after e pending h =
    absurd (let some_left = pending refl in omega (arith, e, some_left))
gone_stays false before after e pending (inl left) = left
gone_stays false before after e pending (inr same) = same ∙ e

zero_or_pos : (n : ℕ) → (n ≡ 0) ⊎ (0 < n)
zero_or_pos zero = inl refl
zero_or_pos (suc n) = inr (omega arith)

-- One round more.
count_on :
    (before between last rounds : ℕ)
    → between ≡ before + 1
    → between < max_deliveries
    → (last ≡ 0) ⊎ ((last ≡ between + rounds) × (0 < rounds → last < max_deliveries))
    → (last ≡ 0) ⊎ ((last ≡ before + suc rounds) × (0 < suc rounds → last < max_deliveries))
count_on before between last rounds e few (inl left) = inl left
count_on before between last zero e few (inr (count, small)) =
    inr (omega (arith, e, count), λ h. omega (arith, few, count))
count_on before between last (suc rounds) e few (inr (count, small)) =
    inr (omega (arith, e, count), λ h. small (omega arith))

-- One round's claim and the claims after it.
one_more :
    (claimed : Bool) (before after later : ℕ)
    → Delivered claimed before after
    → before < max_deliveries
    → (after ≡ 0 → later ≡ 0)
    → (after < max_deliveries → after + later ≤ max_deliveries)
    → before + ((if claimed then 1 else 0) + later) ≤ max_deliveries
one_more true before after later (inl left) small none_later rest =
    let e = none_later left in omega (arith, small, e)
one_more true before after later (inr (more, few)) small none_later rest =
    let h = rest few in omega (arith, more, h)
one_more false before after later (inl left) small none_later rest =
    let e = none_later left in omega (arith, small, e)
one_more false before after later (inr same) small none_later rest =
    let h = rest (omega (arith, same, small)) in omega (arith, same, h)

module _ (p : Scores) (g : Group) where
  -- The rounds that claim a message.
  abbrev pub claims_of : ℕ → World p g → String → ℕ
  claims_of zero w msg = 0
  claims_of (suc rounds) w msg =
      (if has msg (g.xautoclaim w.0).0 then 1 else 0) + claims_of rounds (round p g w).1 msg

module _ (p : Scores) (g : Group)
    (counts : (s : g.State) (msg : String) → g.xpending s msg ≡ delivered (g.times s msg))
    (acks : (id : String) (s : g.State) → (g.xack id s).0 ≡ true)
    (adds : (fields : Fields) (s : g.State) → (g.xadd fields s).0 ≡ true) where
  consume-suc :
      (rounds : ℕ) (w : World p g)
      → consume_recompute p g (suc rounds) w ≡ consume_recompute p g rounds (round p g w).1
  unfolding consume_recompute
  consume-suc rounds w =
      after_entry-then p g (consume_recompute p g rounds) (round p g w)
        (round-answers p g counts acks adds w)

  consume-answers : (rounds : ℕ) (w : World p g) → (consume_recompute p g rounds w).0 ≡ true
  unfolding consume_recompute
  consume-answers zero w = refl
  consume-answers (suc rounds) w =
      rw (consume-suc rounds w) (consume-answers rounds (round p g w).1)

  -- However many rounds the consumer makes: while Valkey answers, no message is pending that was
  -- delivered as often as the dead-letter limit says.
  pub consume-few :
      (rounds : ℕ) (w : World p g) (msg : String)
      → g.times w.0 msg < max_deliveries
      → g.times (consume_recompute p g rounds w).1.0 msg < max_deliveries
  unfolding consume_recompute
  consume-few zero w msg h = h
  consume-few (suc rounds) w msg h =
      rw (consume-suc rounds w)
        (consume-few rounds (round p g w).1 msg (round-few p g counts acks adds msg w h))

  consume-gone :
      (rounds : ℕ) (w : World p g) (msg : String)
      → g.seen w.0 msg ≡ true
      → g.times w.0 msg ≡ 0
      → g.times (consume_recompute p g rounds w).1.0 msg ≡ 0
  unfolding consume_recompute
  consume-gone zero w msg seen e = e
  consume-gone (suc rounds) w msg seen e = rw (consume-suc rounds w) (
      consume-gone rounds (round p g w).1 msg (seen-round p g msg w seen) (
        gone_stays _ _ _ e (g.claimed_pending w.0 msg)
          (round-Delivered p g counts acks adds msg w seen)))

  round_claimed :
      (w : World p g) (msg : String)
      → has msg (g.xautoclaim w.0).0 ≡ true
      → g.seen w.0 msg ≡ true
      → Delivered true (g.times w.0 msg) (g.times (round p g w).1.0 msg)
  round_claimed w msg hit seen =
      subst (λ b. Delivered b (g.times w.0 msg) (g.times (round p g w).1.0 msg)) hit
        (round-Delivered p g counts acks adds msg w seen)

  -- While it is claimed in every round, a message has left or has one delivery more each time.
  consume-counts :
      (rounds : ℕ) (w : World p g) (msg : String)
      → ((s : g.State) → 0 < g.times s msg → has msg (g.xautoclaim s).0 ≡ true)
      → g.seen w.0 msg ≡ true
      → (g.times (consume_recompute p g rounds w).1.0 msg ≡ 0)
        ⊎ ((g.times (consume_recompute p g rounds w).1.0 msg ≡ g.times w.0 msg + rounds)
            × (0 < rounds → g.times (consume_recompute p g rounds w).1.0 msg < max_deliveries))
  unfolding consume_recompute
  consume-counts zero w msg claims seen = inr (omega arith, λ h. absurd (omega (arith, h)))
  consume-counts (suc rounds) w msg claims seen =
      let seen₁ = seen-round p g msg w seen in
      rw (consume-suc rounds w) (elim (zero_or_pos (g.times w.0 msg)) [
        | inl none_left ↦ inl (
            consume-gone rounds (round p g w).1 msg seen₁ (
              gone_stays _ _ _ none_left (g.claimed_pending w.0 msg)
                (round-Delivered p g counts acks adds msg w seen)))
        | inr pending ↦ elim (round_claimed w msg (claims w.0 pending) seen) [
          | inl left ↦ inl (consume-gone rounds (round p g w).1 msg seen₁ left)
          | inr (more, few) ↦
              count_on _ _ _ rounds more few
                (consume-counts rounds (round p g w).1 msg claims seen₁)
        ]
      ])

  -- A message that was delivered is pending no more after as many rounds as the dead-letter limit
  -- says, and the consumer still runs, if Valkey answers and each round claims the message while it
  -- is pending; whatever its processing does.
  pub consume_drains :
      (rounds : ℕ) (w : World p g) (msg : String)
      → ((s : g.State) → 0 < g.times s msg → has msg (g.xautoclaim s).0 ≡ true)
      → g.seen w.0 msg ≡ true
      → max_deliveries ≤ rounds
      → ((consume_recompute p g rounds w).0 ≡ true)
        × (g.times (consume_recompute p g rounds w).1.0 msg ≡ 0)
  consume_drains rounds w msg claims seen enough = (
    consume-answers rounds w,
    elim (consume-counts rounds w msg claims seen) [
      | inl left ↦ left
      | inr (count, few) ↦
          absurd (let small = few (omega (arith, enough)) in omega (arith, count, small, enough))
    ],
  )

  claims_of-gone :
      (rounds : ℕ) (w : World p g) (msg : String)
      → g.seen w.0 msg ≡ true
      → g.times w.0 msg ≡ 0
      → claims_of p g rounds w msg ≡ 0
  claims_of-gone zero w msg seen e = refl
  claims_of-gone (suc rounds) w msg seen e =
      let rest = claims_of-gone rounds (round p g w).1 msg (seen-round p g msg w seen) (
        gone_stays _ _ _ e (g.claimed_pending w.0 msg)
          (round-Delivered p g counts acks adds msg w seen)) in
      elim (Bool-cases (has msg (g.xautoclaim w.0).0)) [
        | inl hit ↦
            absurd (let some_left = g.claimed_pending w.0 msg hit in omega (arith, e, some_left))
        | inr miss ↦ rw (miss, rest) refl
      ]

  -- However long the consumer runs, it claims a message, and so tries it again, at most as often as
  -- the dead-letter limit leaves deliveries, if Valkey answers.
  pub claims_of_le :
      (rounds : ℕ) (w : World p g) (msg : String)
      → g.seen w.0 msg ≡ true
      → g.times w.0 msg < max_deliveries
      → g.times w.0 msg + claims_of p g rounds w msg ≤ max_deliveries
  claims_of_le zero w msg seen small = omega (arith, small)
  claims_of_le (suc rounds) w msg seen small =
      let seen₁ = seen-round p g msg w seen in
      let rest = claims_of_le rounds (round p g w).1 msg seen₁ in
      let gone_after = claims_of-gone rounds (round p g w).1 msg seen₁ in
      let step = round-Delivered p g counts acks adds msg w seen in
      one_more (has msg (g.xautoclaim w.0).0) _ _ _ step small gone_after rest
