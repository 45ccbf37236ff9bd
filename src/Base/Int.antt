-- ===== src/Base/Int.antt =====
-- `int` arguments that may be negative: `negsuc n` is -(n + 1). Widths are not bounded here.
use Prim.Native.Nat.{ℕ}

pub data ℤ : Type 0 where
  pos : ℕ → ℤ
  negsuc : ℕ → ℤ

-- `(n < 0) ? 0 : n`
abbrev pub clamp : ℤ → ℕ
clamp (pos n) = n
clamp (negsuc n) = 0
