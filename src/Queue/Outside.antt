-- ===== src/Queue/Outside.antt =====
-- What the queues ask of Valkey, of the graph database and of the plugins, and the answers. The
-- other side is arbitrary: each answer is any function of everything that was asked before.
use imbi_api.Prelude.{ℕ, String, List, Option, Entries}

abbrev pub Fields : Type 0
Fields = Entries String

-- A command's answer, as `if` reads it; `raised` is an exception.
pub data Answer : Type 0 where
  raised falsy truthy : Answer

-- The answer to a status write; `conflict` is the database's concurrent-update error.
pub data Write : Type 0 where
  written conflict failed : Write

-- XPENDING for one message: its delivery count, or nothing to go by.
pub data Pending : Type 0 where
  unknown : Pending
  delivered : ℕ → Pending

-- How a backfill ends: with its figures, or by one of the exceptions that the worker tells apart.
pub data RunEnd : Type 0 where
  completed : Entries ℕ → RunEnd
  unavailable : String → RunEnd
  rate_limited : ℕ → RunEnd
  errored : RunEnd

pub data SyncState : Type 0 where
  idle queued running success failed : SyncState

pub record Status : Type 0 where
  pub project_id : String
  pub state : SyncState
  pub requested_by : String
  pub figures : Entries ℕ
  pub error : String

-- How the processing of one message ends, for `_handle_entries`.
pub data Ended : Type 0 where
  finished : Ended
  limited : ℕ → Ended
  crashed : Ended

pub data Event : Type 0 where
  -- SET key 1 EX seconds NX
  set_nx : String → ℕ → Answer → Event
  -- DEL key
  deleted : String → Answer → Event
  -- XADD stream fields
  added : String → Fields → Answer → Event
  -- XADD to the dead-letter stream, for a message
  moved : String → Fields → Answer → Event
  -- XACK of a message
  acked : String → Answer → Event
  -- XPENDING of a message
  asked : String → Pending → Event
  -- SET of the pause key, with its time to live
  paused : ℕ → ℕ → Answer → Event
  -- a status write
  wrote : Status → Write → Event
  -- a backfill of a project
  ran : String → String → RunEnd → Event
  -- GET of the pause key: the resume time that it carries, if any can be read
  looked : Option ℕ → Event
  -- XAUTOCLAIM and XREADGROUP, with the messages that they return
  claimed : List (String × Fields) → Event
  read : Option (List (String × Fields)) → Event
  -- not a command: the processing of a message has ended
  ended : String → Ended → Event

-- Newest first.
abbrev pub Log : Type 0
Log = List Event

pub record Outside : Type 0 where
  pub set_nx : Log → String → ℕ → Answer
  pub delete : Log → String → Answer
  pub xadd : Log → String → Fields → Answer
  pub xack : Log → String → Answer
  pub xpending : Log → String → Pending
  pub set_pause : Log → ℕ → ℕ → Answer
  pub write : Log → Status → Write
  pub get_pause : Log → Option ℕ
  pub claim : Log → List (String × Fields)
  -- `none` is an exception.
  pub read : Log → Option (List (String × Fields))
  -- The clock, in seconds.
  pub now : Log → ℕ
  pub run : Log → String → String → ℕ → RunEnd
