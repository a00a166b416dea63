-- ===== src/Prelude/Replies.antt =====
-- How a request's handler answers.
use Prim.Native.Nat.{ℕ}
use Prim.Native.String.{String}

-- What a call answers: a value, an HTTPException, or another exception.
pub data Reply (A : Type 0) : Type 0 where
  ok : A → Reply A
  refuse : ℕ → String → Reply A
  break : Reply A
