-- ===== src/Base/Machine.antt =====
-- What calls into C and fallible calls return.
use Prim.Native.Nat.{ℕ}

-- A signed number: `pos n` is n, `negsuc n` is -(n + 1).
pub data ℤ : Type 0 where
  pos : ℕ → ℤ
  negsuc : ℕ → ℤ

-- `Result` of Rust.
pub data Result (E A : Type 0) : Type 0 where
  ok : A → Result E A
  err : E → Result E A
