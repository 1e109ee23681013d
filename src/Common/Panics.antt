-- ===== src/Common/Panics.antt =====
-- The result of a kernel routine that may call panic, which does not return.
pub data Outcome {ℓ} (A : Type ℓ) : Type ℓ where
  panic : Outcome A
  ok : A → Outcome A

-- What follows a call is reached only if the call returns.
infixl 5 ◌>>=◌
abbrev pub ◌>>=◌ {ℓ κ} :
    {A : Type ℓ} {R : Type κ} (call : Outcome A) (rest : A → Outcome R) → Outcome R
panic >>= rest = panic
ok result >>= rest = rest result
