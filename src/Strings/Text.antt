-- ===== src/Strings/Text.antt =====
-- The string routines on NUL-terminated texts.
use cs537_sp23_operating_sys.Common.{
  ℕ, List, Memory, [], ap, arith, false, if◌then◌else◌, in_range, length, pos, refl, some,
  sub_ℕ_eq_zero, suc, take, update, zero, ◌%◌, ◌+◌, ◌<◌, ◌↔◌, ◌∙◌, ◌∷◌, ◌≡◌, ◌≢◌, ◌⊎◌, Bool-cases,
  inl, inr, ◌==◌, ==→eq, get_or, true, ◌-◌, ◌≤◌, ne→==, sym,
}
use mathlib.Core.Path.{subst}
use cs537_sp23_operating_sys.Strings.{
  memcmp, strncmp, strlen, strlen_from, strncpy, zero_up, safestrcpy, safestrcpy_loop,
}

-- From `p` on memory holds the bytes `xs`, none of them NUL, and then a NUL.
abbrev pub CString : Memory → ℕ → List ℕ → Type 0
CString m p [] = m p ≡ 0
CString m p (x ∷ xs) = (m p ≡ x) × (x ≢ 0) × (x < 256) × CString m (p + 1) xs

strlen_from_lem :
    (fuel : ℕ) (m : Memory) (s n : ℕ) (xs : List ℕ)
    → CString m (s + n) xs
    → length xs < fuel
    → strlen_from fuel m s n ≡ some (n + length xs)
unfolding strlen_from
strlen_from_lem zero m s n xs text h = elim h [ ]
strlen_from_lem (suc fuel) m s n [] text h = ground arith
strlen_from_lem (suc fuel) m s n (x ∷ xs) text h =
    let next : CString m (s + (n + 1)) xs = subst (λ p. CString m p xs) (omega arith) text.3 in
    ground (arith, strlen_from_lem fuel m s (n + 1) xs next (omega arith))

-- On a text of `k` bytes `strlen` returns `k`, given more than `k` rounds.
pub strlen_lem :
    (fuel : ℕ) (m : Memory) (s : ℕ) (xs : List ℕ)
    → CString m s xs
    → length xs < fuel
    → strlen fuel m s ≡ some (length xs)
unfolding strlen
strlen_lem fuel m s xs text h =
    let start : CString m (s + 0) xs = subst (λ p. CString m p xs) (omega arith) text in
    strlen_from_lem fuel m s 0 xs start h ∙ ap some (omega arith)

agree_cons :
    (m : Memory) (p q n : ℕ)
    → m p ≡ m q
    → ((i : ℕ) → i < n → m (p + 1 + i) ≡ m (q + 1 + i))
    → (i : ℕ) → i < suc n
    → m (p + i) ≡ m (q + i)
agree_cons m p q n e all zero h = ground arith
agree_cons m p q n e all (suc i) h = ground (arith, all i)

agree_next :
    (m : Memory) (p q n : ℕ)
    → ((i : ℕ) → i < suc n → m (p + i) ≡ m (q + i))
    → (i : ℕ) → i < n
    → m (p + 1 + i) ≡ m (q + 1 + i)
agree_next m p q n all i h = ground (arith, all (suc i))

-- `memcmp` returns 0 exactly where the `n` bytes are equal.
pub memcmp_iff :
    (m : Memory) (p q n : ℕ) → (memcmp m p q n ≡ pos 0) ↔ ((i : ℕ) → i < n → m (p + i) ≡ m (q + i))
unfolding memcmp
memcmp_iff m p q zero = (λ _ i h. elim h [ ], λ _. refl)
memcmp_iff m p q (suc n) = elim (Bool-cases (m p == m q)) [
  | inl e ↦
      rw (e, memcmp)
        (
          λ z. agree_cons m p q n (==→eq (m p) (m q) e) ((memcmp_iff m (p + 1) (q + 1) n).0 z),
          λ all. (memcmp_iff m (p + 1) (q + 1) n).1 (λ i h. agree_next m p q n all i h),
        )
  | inr e ↦
      rw (e, memcmp)
        (
          λ z. absurd (ground (arith, sub_ℕ_eq_zero (m p) (m q))),
          λ all. absurd (ground (arith, all 0 (omega arith))),
        )
]

-- `strncmp` returns 0 exactly where the two texts agree in their first `n` bytes.
pub strncmp_iff :
    (m : Memory) (p q n : ℕ) (xs ys : List ℕ)
    → CString m p xs
    → CString m q ys
    → (strncmp m p q n ≡ pos 0) ↔ (take n xs ≡ take n ys)
unfolding strncmp
strncmp_iff m p q zero xs ys a b = (λ _. refl, λ _. refl)
strncmp_iff m p q (suc n) [] [] a b = ground (arith, sub_ℕ_eq_zero (m p % 256) (m q % 256))
strncmp_iff m p q (suc n) [] (y ∷ ys) a b = ground (arith, sub_ℕ_eq_zero (m p % 256) (m q % 256))
strncmp_iff m p q (suc n) (x ∷ xs) [] a b = ground (arith, sub_ℕ_eq_zero (m p % 256) (m q % 256))
strncmp_iff m p q (suc n) (x ∷ xs) (y ∷ ys) a b =
    ground
      (arith, strncmp_iff m (p + 1) (q + 1) n xs ys a.3 b.3, sub_ℕ_eq_zero (m p % 256) (m q % 256))

safestrcpy_loop_outside :
    (m : Memory) (s t n a : ℕ) → in_range s (suc n) a ≡ false → safestrcpy_loop m s t n a ≡ m a
unfolding safestrcpy_loop
safestrcpy_loop_outside m s t zero a out = ground arith
safestrcpy_loop_outside m s t (suc n) a out =
    ground (arith, safestrcpy_loop_outside (update m s (m t)) (s + 1) (t + 1) n a)

-- A text stays where its bytes and its NUL are kept.
pub CString-frame :
    (m m' : Memory) (p : ℕ) (xs : List ℕ)
    → ((a : ℕ) → in_range p (suc (length xs)) a ≡ true → m' a ≡ m a)
    → CString m p xs
    → CString m' p xs
CString-frame m m' p [] same text = ground (arith, same p)
CString-frame m m' p (x ∷ xs) same text = (
  ground (arith, same p),
  text.1,
  text.2,
  CString-frame m m' (p + 1) xs (λ a h. same a (ground arith)) text.3,
)

safestrcpy_loop-suc :
    (m : Memory) (s t n : ℕ)
    → m t ≢ 0
    → safestrcpy_loop m s t (suc n) ≡ safestrcpy_loop (update m s (m t)) (s + 1) (t + 1) n
unfolding safestrcpy_loop
safestrcpy_loop-suc m s t n h = rw (ne→== (m t) 0 h, safestrcpy_loop)

safestrcpy_loop_lem :
    (m : Memory) (s t n : ℕ) (xs : List ℕ)
    → CString m t xs
    → (t + length xs < s) ⊎ (s + n < t)
    → CString (safestrcpy_loop m s t n) s (take n xs)
unfolding safestrcpy_loop
safestrcpy_loop_lem m s t zero xs text apart = ground arith
safestrcpy_loop_lem m s t (suc n) [] text apart = ground arith
safestrcpy_loop_lem m s t (suc n) (x ∷ xs) text apart =
    let m1 : Memory = update m s (m t) in
    let rest : CString m1 (t + 1) xs = CString-frame m m1 (t + 1) xs (λ a h. ground arith) text.3 in
    let step = safestrcpy_loop-suc m s t n (ground arith) in
    subst (λ m2. CString m2 s (x ∷ take n xs)) (sym step)
      (
        ground (arith, safestrcpy_loop_outside m1 (s + 1) (t + 1) n s),
        text.1,
        text.2,
        safestrcpy_loop_lem m1 (s + 1) (t + 1) n xs rest (ground arith),
      )

get_or-cons :
    (xs : List ℕ) (i x : ℕ) → get_or (x ∷ xs) i 0 ≡ (if i == 0 then x else get_or xs (i - 1) 0)
get_or-cons xs zero x = refl
get_or-cons xs (suc i) x = ground arith

zero_up_lem : (m : Memory) (s n a : ℕ) → zero_up m s n a ≡ (if in_range s n a then 0 else m a)
unfolding zero_up
zero_up_lem m s zero a = ground arith
zero_up_lem m s (suc n) a = ground (arith, zero_up_lem (update m s 0) (s + 1) n a)

-- `safestrcpy` with room for `n > 0` bytes and no overlap leaves at `s` the first `n - 1` bytes of the text
-- at `t`, always with a NUL behind them, and changes no byte outside the `n` bytes from `s` on.
pub safestrcpy-CString :
    (m : Memory) (s t n : ℕ) (xs : List ℕ)
    → 0 < n
    → CString m t xs
    → (t + length xs < s) ⊎ (s + n ≤ t)
    → CString (safestrcpy m s t n) s (take (n - 1) xs)
      × ((a : ℕ) → in_range s n a ≡ false → safestrcpy m s t n a ≡ m a)
unfolding safestrcpy
safestrcpy-CString m s t zero xs h text apart = elim h [ ]
safestrcpy-CString m s t (suc n) xs h text apart =
    let e : suc n - 1 ≡ n = omega arith in
    (
      rw e (safestrcpy_loop_lem m s t n xs text (omega arith)),
      λ a out. safestrcpy_loop_outside m s t n a out,
    )

-- `strncpy` with no overlap stores in the `n` bytes from `s` on the text at `t`, cut at `n` bytes or
-- filled up with zeros, and changes no other byte.
pub strncpy_lem :
    (m : Memory) (s t n : ℕ) (xs : List ℕ) (a : ℕ)
    → CString m t xs
    → (t + length xs < s) ⊎ (s + n ≤ t)
    → strncpy m s t n a ≡ (if in_range s n a then get_or xs (a - s) 0 else m a)
unfolding strncpy
strncpy_lem m s t zero xs a text apart = ground arith
strncpy_lem m s t (suc n) [] a text apart =
    ground (arith, zero_up_lem (update m s (m t)) (s + 1) n a)
strncpy_lem m s t (suc n) (x ∷ xs) a text apart =
    let m1 : Memory = update m s (m t) in
    let rest : CString m1 (t + 1) xs = CString-frame m m1 (t + 1) xs (λ a h. ground arith) text.3 in
    ground
      (arith, strncpy_lem m1 (s + 1) (t + 1) n xs a rest (ground arith), get_or-cons xs (a - s) x)
