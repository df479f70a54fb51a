-- ===== src/Prelude/Int.antt =====
-- Go's int32 values: an exit code may be negative, and is only compared with small constants.
use Prim.Native.Nat.{ℕ}
use mathlib.Core.Bool.{Bool, false}
use incident_controller.Prelude.Tests.{◌==◌, leb}

-- `negsuc n` is -(n + 1).
pub data ℤ : Type 0 where
  pos : ℕ → ℤ
  negsuc : ℕ → ℤ

-- `z == n` at a non-negative constant.
abbrev pub equals : ℤ → ℕ → Bool
equals (pos k) n = k == n
equals (negsuc _) n = false

-- `0 <= z && z <= n`.
abbrev pub within : ℤ → ℕ → Bool
within (pos k) n = leb k n
within (negsuc _) n = false
