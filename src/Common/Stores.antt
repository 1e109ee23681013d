-- ===== src/Common/Stores.antt =====
-- Memory and arrays of a fixed address as functions: a write at one index, a fill of a range.
use Prim.Native.Nat.{ℕ, ◌+◌}
use mathlib.Core.Path.{◌≡◌}
use mathlib.Core.Logic.{◌≢◌}
use mathlib.Core.Bool.{Bool, ◌&&◌}
use native.Mathlib.Omega.{arith}
use cs537_sp23_operating_sys.Common.Booleans.{◌==◌, leb, ltb, if◌then◌else◌}

abbrev pub update {ℓ} : {A : Type ℓ} → (ℕ → A) → ℕ → A → ℕ → A
update f i a j = if i == j then a else f j

-- The bytes of memory, by address.
abbrev pub Memory : Type 0
Memory = ℕ → ℕ

-- `v ≤ a < v + n`.
abbrev pub in_range : ℕ → ℕ → ℕ → Bool
in_range v n a = leb v a && ltb a (v + n)

pub update_self {ℓ} : {A : Type ℓ} (f : ℕ → A) (i : ℕ) (a : A) → update f i a i ≡ a
update_self f i a = ground arith

pub update_ne {ℓ} : {A : Type ℓ} (f : ℕ → A) (i j : ℕ) (a : A) → i ≢ j → update f i a j ≡ f j
update_ne f i j a h = ground arith
