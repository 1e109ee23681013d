-- ===== src/User/Texts.antt =====
-- The text routines of ulib.c.
use native.Mathlib.Decide.{ℕ_discrete}
use cs537_sp23_operating_sys.Common.{
  ℕ, List, Memory, [], arith, false, if◌then◌else◌, in_range, length, pos, refl, some, suc, update,
  zero, ℤ, ◌+◌, ◌-◌, ◌<◌, ◌==◌, ◌↔◌, ◌∙◌, ◌∷◌, ◌≡◌, ◌≤◌, ◌⊎◌, not, sub_ℕ_eq_zero, true, ◌%◌, ◌&&◌,
  sub_ℕ,
}
use cs537_sp23_operating_sys.Strings.Text.{CString, CString-frame}
use cs537_sp23_operating_sys.User.{strcpy, strcmp, gets_from, memmove, gets}

-- `strcpy` of a text to a place above or below it, with room for the text and its NUL, leaves the text there
-- and changes nothing else.
pub strcpy-CString :
    (fuel : ℕ) (m : Memory) (s t : ℕ) (xs : List ℕ)
    → CString m t xs
    → length xs < fuel
    → (t + length xs < s) ⊎ (s + length xs < t)
    → (m' : Memory) × (strcpy fuel m s t ≡ some m')
      × CString m' s xs
      × ((a : ℕ) → in_range s (length xs + 1) a ≡ false → m' a ≡ m a)
unfolding strcpy
strcpy-CString zero m s t xs text h apart = elim h [ ]
strcpy-CString (suc fuel) m s t [] text h apart =
    let stop : (m t == 0) ≡ true = ground arith in
    (update m s (m t), rw (stop, strcpy) refl, ground arith, λ a out. ground arith)
strcpy-CString (suc fuel) m s t (x ∷ xs) text h apart =
    let m1 : Memory = update m s (m t) in
    let rest : CString m1 (t + 1) xs = CString-frame m m1 (t + 1) xs (λ a l. ground arith) text.3 in
    let go_on : (m t == 0) ≡ false = ground (arith, text) in
    let (m', e, copied, kept) =
      strcpy-CString fuel m1 (s + 1) (t + 1) xs rest (omega arith) (ground arith) in
    (
      m',
      rw (go_on, strcpy) e,
      (ground (arith, kept s, text), text.1, text.2, copied),
      λ a out. kept a (ground arith) ∙ ground arith,
    )

-- `strcmp` of two texts returns 0 exactly if they are the same.
pub strcmp_iff :
    (fuel : ℕ) (m : Memory) (p q : ℕ) (xs ys : List ℕ)
    → CString m p xs
    → CString m q ys
    → length xs < fuel
    → (r : ℤ) × (strcmp fuel m p q ≡ some r) × ((r ≡ pos 0) ↔ (xs ≡ ys))
unfolding strcmp
strcmp_iff zero m p q xs ys a b h = elim h [ ]
strcmp_iff (suc fuel) m p q [] [] a b h =
    let stop : (not (m p == 0) && (m p == m q)) ≡ false = ground arith in
    let zero_byte = sub_ℕ_eq_zero (m p % 256) (m q % 256) in
    (
      sub_ℕ (m p % 256) (m q % 256),
      rw (stop, strcmp) refl,
      (λ e. refl, λ e. zero_byte.1 (ground arith)),
    )
strcmp_iff (suc fuel) m p q [] (y ∷ ys) a b h =
    let stop : (not (m p == 0) && (m p == m q)) ≡ false = ground arith in
    let zero_byte = sub_ℕ_eq_zero (m p % 256) (m q % 256) in
    (
      sub_ℕ (m p % 256) (m q % 256),
      rw (stop, strcmp) refl,
      (λ e. absurd (ground (arith, zero_byte.0 e, b)), λ e. cc),
    )
strcmp_iff (suc fuel) m p q (x ∷ xs) [] a b h =
    let stop : (not (m p == 0) && (m p == m q)) ≡ false = ground (arith, a) in
    let zero_byte = sub_ℕ_eq_zero (m p % 256) (m q % 256) in
    (
      sub_ℕ (m p % 256) (m q % 256),
      rw (stop, strcmp) refl,
      (λ e. absurd (ground (arith, zero_byte.0 e, a)), λ e. cc),
    )
strcmp_iff (suc fuel) m p q (x ∷ xs) (y ∷ ys) a b h = elim (ℕ_discrete x y) [
  | yes same ↦
      let go_on : (not (m p == 0) && (m p == m q)) ≡ true = ground (arith, a, b) in
      let (r, e, iff) = strcmp_iff fuel m (p + 1) (q + 1) xs ys a.3 b.3 (omega arith) in
      (r, rw (go_on, strcmp) e, (λ z. ground (arith, iff.0 z), λ l. iff.1 (cc)))
  | no other ↦
      let stop : (not (m p == 0) && (m p == m q)) ≡ false = ground (arith, a, b) in
      let zero_byte = sub_ℕ_eq_zero (m p % 256) (m q % 256) in
      (
        _,
        rw (stop, strcmp) refl,
        (
          λ (e : sub_ℕ (m p % 256) (m q % 256) ≡ pos 0).
              absurd (ground (arith, zero_byte.0 e, a, b)),
          λ l. absurd (other cc),
        ),
      )
]

gets_from-bounds :
    (n : ℕ) (m : Memory) (buf i : ℕ) (input : List ℕ) (a : ℕ)
    → in_range (buf + i) (n + 1) a ≡ false
    → (gets_from n m buf i input).0 a ≡ m a
unfolding gets_from
gets_from-bounds zero m buf i input a out = ground arith
gets_from-bounds (suc n) m buf i [] a out = ground arith
gets_from-bounds (suc n) m buf i (c ∷ input) a out =
    ground (arith, gets_from-bounds n (update m (buf + i) c) buf (i + 1) input a)

-- `gets` changes no byte outside the `max` bytes of its buffer, however long the input is.
pub gets-bounds :
    (m : Memory) (buf max : ℕ) (input : List ℕ) (a : ℕ)
    → 0 < max
    → in_range buf max a ≡ false
    → (gets m buf max input).0 a ≡ m a
unfolding gets
gets-bounds m buf max input a h out = gets_from-bounds (max - 1) m buf 0 input a (ground arith)

-- `memmove` of user programs copies upwards: the `n` bytes arrive as they were if the destination does not
-- start inside the source behind its first byte, and all other bytes are as before.
pub memmove_upwards :
    (m : Memory) (dst src n a : ℕ)
    → (dst ≤ src) ⊎ (src + n ≤ dst)
    → memmove m dst src n a ≡ (if in_range dst n a then m (src + (a - dst)) else m a)
unfolding memmove
memmove_upwards m dst src zero a h = ground arith
memmove_upwards m dst src (suc n) a h =
    ground (arith, memmove_upwards (update m dst (m src)) (dst + 1) (src + 1) n a)
