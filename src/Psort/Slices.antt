-- ===== src/Psort/Slices.antt =====
-- Ranges of an array as lists.
use cs537_sp23_operating_sys.Common.{
  ℕ, List, [], ap, arith, refl, suc, update, zero, ◌++◌, ◌+◌, ◌-◌, ◌<◌, ◌∷◌, ◌≡◌, ◌≤◌, ◌∙◌,
}
use cs537_sp23_operating_sys.Psort.{KeyIndex, Array}

-- `a[i]`, …, `a[i + n - 1]`.
abbrev pub slice : Array → ℕ → ℕ → List KeyIndex
slice a i zero = []
slice a i (suc n) = a i ∷ slice a (i + 1) n

slice-pos : (a : Array) (i n : ℕ) → 0 < n → slice a i n ≡ a i ∷ slice a (i + 1) (n - 1)
slice-pos a i zero h = elim h [ ]
slice-pos a i (suc n) h = ap (λ k. a i ∷ slice a (i + 1) k) (omega arith)

-- The range from `i` up to, not including, `m`.
pub slice-cons :
    (a : Array) (i m : ℕ) → i < m → slice a i (m - i) ≡ a i ∷ slice a (i + 1) (m - (i + 1))
slice-cons a i m h =
    slice-pos a i (m - i) (omega arith) ∙ ap (λ k. a i ∷ slice a (i + 1) k) (omega arith)

pub slice-nil : (a : Array) (i m : ℕ) → m ≤ i → slice a i (m - i) ≡ []
slice-nil a i m h = let e : m - i ≡ 0 = omega arith in rw e

-- Arrays that agree on the range have the same slice.
pub slice-eq :
    (a b : Array) (i n : ℕ) → ((p : ℕ) → i ≤ p → p < i + n → a p ≡ b p) → slice a i n ≡ slice b i n
slice-eq a b i zero h = refl
slice-eq a b i (suc n) h =
    ground (arith, h i, slice-eq a b (i + 1) n (λ p l u. h p (omega arith) (omega arith)))

pub slice-append : (a : Array) (i m n : ℕ) → slice a i (m + n) ≡ slice a i m ++ slice a (i + m) n
slice-append a i zero n = ground arith
slice-append a i (suc m) n =
    let e : suc m + n ≡ suc (m + n) = omega arith in
    let e' : i + suc m ≡ i + 1 + m = omega arith in rw (e, e', slice-append a (i + 1) m n)

-- A write just behind a slice adds the entry at its end.
pub slice-update :
    (a : Array) (i n k : ℕ) (x : KeyIndex)
    → i + n ≡ k
    → slice (update a k x) i (suc n) ≡ slice a i n ++ (x ∷ [])
slice-update a i zero k x e = ground arith
slice-update a i (suc n) k x e = ground (arith, slice-update a (i + 1) n k x)
