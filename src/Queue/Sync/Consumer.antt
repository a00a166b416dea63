-- ===== src/Queue/Sync/Consumer.antt =====
-- The loop of `consume_*`, a round at a time. Sleeping changes nothing and is left out.
use imbi_api.Prelude.{
  ℕ, zero, suc, ◌-◌, ◌<◌, ◌≡◌, String, true, false, Option, none, some, List, ◌∷◌, ltb,
  if◌then◌else◌, arith, Bool-cases, inl, inr,
}
use imbi_api.Queue.Outside.{Fields, looked, claimed, read, Log, Outside}
use imbi_api.Queue.Sync.{Queue, Batch, left, handle_entries}
use imbi_api.Queue.Sync.Acks.{IsJustified, IsJustified-handle_entries}

module _ (o : Outside) (q : Queue) where
  -- `_paused_remaining`, from what the pause key holds.
  abbrev pub remaining : Option ℕ → ℕ → ℕ
  remaining none now = 0
  remaining (some until) now = until - now

  -- XREADGROUP, and the new messages.
  unfoldable pub after_read : Option (List (String × Fields)) → Log → Log
  after_read none log = log
  after_read (some batch) log = (handle_entries o q (o.now log) false batch log).1

  unfoldable pub read_new : Log → Log
  read_new log = let answer = o.read log in after_read answer (read answer ∷ log)

  -- Unless the stale messages have paused the consumer, it reads new ones.
  unfoldable pub after_stale : Batch × Log → Log
  after_stale (left, log) = log
  after_stale (_, log) =
      let pause = o.get_pause log in
      let log₁ : Log = looked pause ∷ log in
      if ltb 0 (remaining pause (o.now log)) then log₁ else read_new log₁

  unfoldable pub claim_stale : Log → Log
  claim_stale log =
      let stale = o.claim log in
      after_stale (handle_entries o q (o.now log) true stale (claimed stale ∷ log))

  unfoldable pub round : Log → Log
  round log =
      let pause = o.get_pause log in
      let log₁ : Log = looked pause ∷ log in
      if ltb 0 (remaining pause (o.now log)) then log₁ else claim_stale log₁

  unfoldable pub consume : ℕ → Log → Log
  consume zero log = log
  consume (suc rounds) log = consume rounds (round log)

  -- While the pause key carries a time to come, a round sends no other command.
  pub round_paused :
      (log : Log) (until : ℕ)
      → o.get_pause log ≡ some until
      → o.now log < until
      → round log ≡ looked (some until) ∷ log
  unfolding round
  round_paused log until e h = rw e (ground arith)

  IsJustified-after_read :
      (answer : Option (List (String × Fields))) (log : Log)
      → IsJustified log
      → IsJustified (after_read answer log)
  unfolding after_read
  IsJustified-after_read none log h = h
  IsJustified-after_read (some batch) log h =
      IsJustified-handle_entries o q (o.now log) false batch log h

  IsJustified-read_new : (log : Log) → IsJustified log → IsJustified (read_new log)
  unfolding read_new
  IsJustified-read_new log h = IsJustified-after_read (o.read log) (read (o.read log) ∷ log) h

  IsJustified-after_stale : (r : Batch × Log) → IsJustified r.1 → IsJustified (after_stale r)
  unfolding after_stale
  IsJustified-after_stale (left, log) h = h
  IsJustified-after_stale (b, log) h =
      elim (Bool-cases (ltb 0 (remaining (o.get_pause log) (o.now log)))) [
        | inl wait ↦ rw wait h
        | inr go ↦ rw go (IsJustified-read_new (looked (o.get_pause log) ∷ log) h)
      ]

  IsJustified-round : (log : Log) → IsJustified log → IsJustified (round log)
  unfolding round claim_stale
  IsJustified-round log h = elim (Bool-cases (ltb 0 (remaining (o.get_pause log) (o.now log)))) [
    | inl wait ↦ rw wait h
    | inr go ↦ rw go (
        IsJustified-after_stale _ (
          IsJustified-handle_entries o q _ true (o.claim (looked (o.get_pause log) ∷ log))
            (claimed (o.claim (looked (o.get_pause log) ∷ log)) ∷ looked (o.get_pause log) ∷ log)
            h))
  ]

  -- However many rounds the consumer makes, and whatever is answered: no message is acknowledged
  -- before it was processed to its end or stored on the dead-letter stream.
  pub consume-IsJustified :
      (rounds : ℕ) (log : Log) → IsJustified log → IsJustified (consume rounds log)
  unfolding consume
  consume-IsJustified zero log h = h
  consume-IsJustified (suc n) log h = consume-IsJustified n (round log) (IsJustified-round log h)
