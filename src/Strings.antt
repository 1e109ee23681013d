-- ===== src/Strings.antt =====
-- Byte and string routines of the kernel: P5_XV6_CoW_Fork/kernel/string.c, over a memory of bytes.
-- Addresses are numbers that do not wrap: the kernel's memory ends at PHYSTOP.
pub mod Moves
pub mod Text
mod Tests
use cs537_sp23_operating_sys.Common.{
  ℕ, Memory, Option, false, if◌then◌else◌, ltb, none, not, pos, some, sub_ℕ, suc, true, update,
  zero, ℤ, ◌%◌, ◌&&◌, ◌+◌, ◌==◌,
}

-- `stosb` of include/x86.h: `rep stosb` stores the low byte of `c` at `n` addresses upwards.
stosb : Memory → ℕ → ℕ → ℕ → Memory
stosb m dst c zero = m
stosb m dst c (suc n) = stosb (update m dst (c % 256)) (dst + 1) c n

pub memset : Memory → ℕ → ℕ → ℕ → Memory
unfolding stosb
memset m dst c n = stosb m dst c n

pub memcmp : Memory → ℕ → ℕ → ℕ → ℤ
memcmp m s1 s2 zero = pos 0
memcmp m s1 s2 (suc n) = elim (m s1 == m s2) [
  | true ↦ memcmp m (s1 + 1) (s2 + 1) n
  | false ↦ sub_ℕ (m s1) (m s2)
]

-- `while (n-- > 0) *d++ = *s++`
copy_up : Memory → ℕ → ℕ → ℕ → Memory
copy_up m d s zero = m
copy_up m d s (suc n) = copy_up (update m d (m s)) (d + 1) (s + 1) n

-- `while (n-- > 0) *--d = *--s`, with `n` bytes left: the pointers stand at `d + n` and `s + n`.
copy_down : Memory → ℕ → ℕ → ℕ → Memory
copy_down m d s zero = m
copy_down m d s (suc n) = copy_down (update m (d + n) (m (s + n))) d s n

pub memmove : Memory → ℕ → ℕ → ℕ → Memory
unfolding copy_up copy_down
memmove m dst src n =
    if ltb src dst && ltb dst (src + n) then copy_down m dst src n else copy_up m dst src n

pub memcpy : Memory → ℕ → ℕ → ℕ → Memory
memcpy m dst src n = memmove m dst src n

pub strncmp : Memory → ℕ → ℕ → ℕ → ℤ
strncmp m p q zero = pos 0
strncmp m p q (suc n) = elim (not (m p == 0) && (m p == m q)) [
  | true ↦ strncmp m (p + 1) (q + 1) n
  | false ↦ sub_ℕ (m p % 256) (m q % 256)
]

-- `while (n-- > 0) *s++ = 0`
zero_up : Memory → ℕ → ℕ → Memory
zero_up m s zero = m
zero_up m s (suc n) = zero_up (update m s 0) (s + 1) n

-- A negative `n` is as 0. The byte that ends the first loop has been stored.
pub strncpy : Memory → ℕ → ℕ → ℕ → Memory
unfolding zero_up
strncpy m s t zero = m
strncpy m s t (suc n) = elim (m t == 0) [
  | true ↦ zero_up (update m s (m t)) (s + 1) n
  | false ↦ strncpy (update m s (m t)) (s + 1) (t + 1) n
]

-- The loop of `safestrcpy` with `--n` rounds left, and the store behind it.
safestrcpy_loop : Memory → ℕ → ℕ → ℕ → Memory
safestrcpy_loop m s t zero = update m s 0
safestrcpy_loop m s t (suc n) = elim (m t == 0) [
  | true ↦ update (update m s (m t)) (s + 1) 0
  | false ↦ safestrcpy_loop (update m s (m t)) (s + 1) (t + 1) n
]

pub safestrcpy : Memory → ℕ → ℕ → ℕ → Memory
unfolding safestrcpy_loop
safestrcpy m s t zero = m
safestrcpy m s t (suc n) = safestrcpy_loop m s t n

-- The count of the loop, which starts at 0; `none` if the fuel runs out before a NUL.
strlen_from : ℕ → Memory → ℕ → ℕ → Option ℕ
strlen_from zero m s n = none
strlen_from (suc fuel) m s n = elim (m (s + n) == 0) [
  | true ↦ some n
  | false ↦ strlen_from fuel m s (n + 1)
]

pub strlen : ℕ → Memory → ℕ → Option ℕ
unfolding strlen_from
strlen fuel m s = strlen_from fuel m s 0
