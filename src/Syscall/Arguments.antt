-- ===== src/Syscall/Arguments.antt =====
-- The arguments of system calls that are addresses: `argptr` and `fetchstr`.
use cs537_sp23_operating_sys.Common.{
  ℕ, Option, Bool-cases, Memory, arith, false, if◌then◌else◌, inl, inr, leb, ltb, none, refl, some,
  suc, zero, ◌%◌, ◌+◌, ◌-◌, ◌<◌, ◌==◌, ◌^◌, ◌||◌, ◌≡◌, ◌≢◌, ◌≤◌, ◌⊎◌,
}
use cs537_sp23_operating_sys.Syscall.{Caller, fetchstr, fetchstr_from, argint, argptr}

-- A block that `argptr` accepts, of a size that is not negative, lies inside the process.
pub argptr-bounds :
    (p : Caller) (n size i : ℕ)
    → p.sz ≤ 2 ^ 31
    → size < 2 ^ 31
    → argptr p n size ≡ some i
    → i + size ≤ p.sz
unfolding argptr
argptr-bounds p n size i fits small h = go (argint p n) h
  where
    go :
        (o : Option ℕ)
        → elim o [
          | none ↦ none
          | some i ↦ if leb p.sz i || ltb p.sz ((i + size) % 2 ^ 32) then none else some i
        ]
          ≡ some i
        → i + size ≤ p.sz
    go none e = cc
    go (some j) e = ground arith

-- The `len` bytes from `s` on are not NUL.
abbrev pub NoNul : Memory → ℕ → ℕ → Type 0
NoNul m s len = (j : ℕ) → j < len → m (s + j) ≢ 0

-- What the loop of `fetchstr` has found.
abbrev StrSpec : ℕ → Memory → ℕ → ℕ → Option ℕ → Type 0
StrSpec n m s len none = NoNul m s n
StrSpec n m s len (some k) = (j : ℕ) × (k ≡ len + j) × (j < n) × (m (s + j) ≡ 0) × NoNul m s j

StrSpec-next :
    (n : ℕ) (m : Memory) (s len : ℕ) (r : Option ℕ)
    → m s ≢ 0
    → StrSpec n m (s + 1) (len + 1) r
    → StrSpec (suc n) m s len r
StrSpec-next n m s len none here rest = bytes
  where
    bytes : NoNul m s (suc n)
    bytes zero l = ground (arith, here)
    bytes (suc j) l = ground (arith, rest j)
StrSpec-next n m s len (some k) here (j, e, l, nul, before) =
    (suc j, omega arith, omega arith, ground arith, bytes)
  where
    bytes : NoNul m s (suc j)
    bytes zero l = ground (arith, here)
    bytes (suc i) l = ground (arith, before i)

fetchstr_from-StrSpec :
    (n : ℕ) (m : Memory) (s len : ℕ) → StrSpec n m s len (fetchstr_from n m s len)
unfolding fetchstr_from
fetchstr_from-StrSpec zero m s len = λ j l. absurd (omega arith)
fetchstr_from-StrSpec (suc n) m s len = elim (Bool-cases (m s == 0)) [
  | inl nul ↦
      rw (nul, fetchstr_from)
        (0, omega arith, omega arith, ground arith, λ j l. absurd (omega arith))
  | inr more ↦
      rw (more, fetchstr_from)
        (StrSpec-next n m s len _ (ground arith) (fetchstr_from-StrSpec n m (s + 1) (len + 1)))
]

-- `fetchstr` returns the length of a text that ends inside the process, with its NUL at that place and
-- none before it, or it fails, and then no NUL stands between the address and the end of the process.
pub fetchstr_lem :
    (p : Caller) (addr : ℕ)
    → ((fetchstr p addr ≡ none) × NoNul p.byte addr (p.sz - addr))
      ⊎ ((len : ℕ) × (fetchstr p addr ≡ some len)
          × (addr + len < p.sz)
          × (p.byte (addr + len) ≡ 0)
          × NoNul p.byte addr len)
unfolding fetchstr
fetchstr_lem p addr = elim (Bool-cases (leb p.sz addr)) [
  | inl out ↦ inl (rw out refl, λ j l. absurd (ground arith))
  | inr fits ↦
      go (fetchstr_from (p.sz - addr) p.byte addr 0) refl
        (fetchstr_from-StrSpec (p.sz - addr) p.byte addr 0) fits
]
  where
    go :
        (r : Option ℕ)
        → fetchstr_from (p.sz - addr) p.byte addr 0 ≡ r
        → StrSpec (p.sz - addr) p.byte addr 0 r
        → leb p.sz addr ≡ false
        → ((fetchstr p addr ≡ none) × NoNul p.byte addr (p.sz - addr))
          ⊎ ((len : ℕ) × (fetchstr p addr ≡ some len)
              × (addr + len < p.sz)
              × (p.byte (addr + len) ≡ 0)
              × NoNul p.byte addr len)
    go none e none_there fits = inl (rw (fits, e) refl, none_there)
    go (some k) e (j, k_eq, l, nul, before) fits =
        let same : k ≡ j = omega arith in inr (j, rw (fits, e, same) refl, omega arith, nul, before)
