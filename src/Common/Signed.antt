-- ===== src/Common/Signed.antt =====
-- The signed results of C functions: an `int` as an integer.
use Prim.Native.Nat.{ℕ, ◌+◌, ◌-◌, ◌%◌, ◌^◌}
use mathlib.Core.Path.{◌≡◌}
use mathlib.Core.Logic.{◌↔◌}
use native.Mathlib.Omega.{arith}
use cs537_sp23_operating_sys.Common.Booleans.{leb, if◌then◌else◌}

-- The place of a 32-bit pattern in the order of `int`, from the least one on.
abbrev pub rank : ℕ → ℕ
rank k = (k + 2 ^ 31) % 2 ^ 32

-- The pattern of -1.
abbrev pub minus_one : ℕ
minus_one = 0xffffffff

-- `negsuc n` is -(n + 1).
pub data ℤ : Type 0 where
  pos : ℕ → ℤ
  negsuc : ℕ → ℤ

-- a - b
abbrev pub sub_ℕ : ℕ → ℕ → ℤ
sub_ℕ a b = if leb b a then pos (a - b) else negsuc (b - a - 1)

pub sub_ℕ_eq_zero : (a b : ℕ) → (sub_ℕ a b ≡ pos 0) ↔ (a ≡ b)
sub_ℕ_eq_zero a b = ground arith
