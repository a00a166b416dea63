-- ===== src/Scoring/Group.antt =====
-- What the score consumer asks of its Valkey consumer group, with the laws of the commands'
-- documentation: an interface.
pub mod InMemory
use imbi_api.Prelude.{
  ℕ, ◌+◌, ◌<◌, ◌≡◌, String, Bool, true, false, Option, none, some, List, [], ◌∷◌, ◌==◌, ◌||◌,
  if◌then◌else◌,
}
use imbi_api.Queue.Outside.{Fields, Pending}

abbrev pub Batch : Type 0
Batch = List (String × Fields)

-- A message is in a batch.
abbrev pub has : String → Batch → Bool
has msg [] = false
has msg ((id, fields) ∷ batch) = id == msg || has msg batch

abbrev pub batch_of : Option Batch → Batch
batch_of none = []
batch_of (some batch) = batch

-- A command that answers `false` has raised.
pub record Group : Type 1 where
  pub State : Type 0
  -- How often a pending message was delivered; 0 where it is not pending.
  pub times : State → String → ℕ
  -- A message was delivered to the group, now or before.
  pub seen : State → String → Bool
  -- XAUTOCLAIM of the messages that are idle; an exception reads as no message.
  pub xautoclaim : State → Batch × State
  -- XREADGROUP of new messages; `none` is an exception.
  pub xreadgroup : State → Option Batch × State
  -- XPENDING of one message.
  pub xpending : State → String → Pending
  -- XADD to the dead-letter stream.
  pub xadd : Fields → State → Bool × State
  pub xack : String → State → Bool × State
  -- A claim is a delivery, and is of pending messages.
  pub times_xautoclaim :
      (s : State) (msg : String)
      → times (xautoclaim s).1 msg
        ≡ (if has msg (xautoclaim s).0 then times s msg + 1 else times s msg)
  pub claimed_pending :
      (s : State) (msg : String) → has msg (xautoclaim s).0 ≡ true → 0 < times s msg
  -- What is read is delivered for the first time.
  pub times_xreadgroup :
      (s : State) (msg : String)
      → times (xreadgroup s).1 msg
        ≡ (if has msg (batch_of (xreadgroup s).0) then 1 else times s msg)
  pub read_new :
      (s : State) (msg : String) → seen s msg ≡ true → has msg (batch_of (xreadgroup s).0) ≡ false
  pub times_xadd :
      (fields : Fields) (s : State) (msg : String) → times (xadd fields s).1 msg ≡ times s msg
  -- An acknowledged message is not pending.
  pub times_xack :
      (id : String) (s : State) (msg : String)
      → (xack id s).0 ≡ true
      → times (xack id s).1 msg ≡ (if id == msg then 0 else times s msg)
  pub pending_seen : (s : State) (msg : String) → 0 < times s msg → seen s msg ≡ true
  pub seen_xautoclaim :
      (s : State) (msg : String) → seen s msg ≡ true → seen (xautoclaim s).1 msg ≡ true
  pub seen_xreadgroup :
      (s : State) (msg : String) → seen s msg ≡ true → seen (xreadgroup s).1 msg ≡ true
  pub seen_xadd :
      (fields : Fields) (s : State) (msg : String)
      → seen s msg ≡ true
      → seen (xadd fields s).1 msg ≡ true
  pub seen_xack :
      (id : String) (s : State) (msg : String) → seen s msg ≡ true → seen (xack id s).1 msg ≡ true
