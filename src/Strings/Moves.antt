-- ===== src/Strings/Moves.antt =====
-- `memset` and `memmove` byte by byte, for source and destination that may overlap.
use cs537_sp23_operating_sys.Common.{
  ℕ, Bool-cases, Memory, arith, if◌then◌else◌, in_range, inl, inr, ltb, suc, update, zero, ◌%◌,
  ◌&&◌, ◌+◌, ◌-◌, ◌<◌, ◌≡◌, ◌≤◌, ◌⊎◌,
}
use cs537_sp23_operating_sys.Strings.{memset, stosb, memmove, copy_up, copy_down}

stosb_lem :
    (m : Memory) (dst c n a : ℕ) → stosb m dst c n a ≡ (if in_range dst n a then c % 256 else m a)
unfolding stosb
stosb_lem m dst c zero a = ground arith
stosb_lem m dst c (suc n) a = ground (arith, stosb_lem (update m dst (c % 256)) (dst + 1) c n a)

-- `memset` stores the low byte of `c` in the `n` bytes from `dst` on, and nowhere else.
pub memset_lem :
    (m : Memory) (dst c n a : ℕ) → memset m dst c n a ≡ (if in_range dst n a then c % 256 else m a)
unfolding memset
memset_lem m dst c n a = stosb_lem m dst c n a

-- Upwards is right where the destination does not start inside the rest of the source.
copy_up_lem :
    (m : Memory) (d s n a : ℕ)
    → (d ≤ s) ⊎ (s + n ≤ d)
    → copy_up m d s n a ≡ (if in_range d n a then m (s + (a - d)) else m a)
unfolding copy_up
copy_up_lem m d s zero a h = ground arith
copy_up_lem m d s (suc n) a h = ground (arith, copy_up_lem (update m d (m s)) (d + 1) (s + 1) n a)

copy_down_lem :
    (m : Memory) (d s n a : ℕ)
    → s < d
    → copy_down m d s n a ≡ (if in_range d n a then m (s + (a - d)) else m a)
unfolding copy_down
copy_down_lem m d s zero a h = ground arith
copy_down_lem m d s (suc n) a h =
    ground (arith, copy_down_lem (update m (d + n) (m (s + n))) d s n a)

-- After `memmove` the `n` bytes from `dst` on are those that stood from `src` on before the call,
-- also where the two ranges overlap, and all other bytes are unchanged.
pub memmove_lem :
    (m : Memory) (dst src n a : ℕ)
    → memmove m dst src n a ≡ (if in_range dst n a then m (src + (a - dst)) else m a)
unfolding memmove
memmove_lem m dst src n a = elim (Bool-cases (ltb src dst && ltb dst (src + n))) [
  | inl e ↦ rw e (copy_down_lem m dst src n a (ground arith))
  | inr e ↦ rw e (copy_up_lem m dst src n a (ground arith))
]
