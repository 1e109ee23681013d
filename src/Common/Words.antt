-- ===== src/Common/Words.antt =====
-- 32-bit words: little-endian access to memory, and flags joined to an aligned address by `|`.
use Prim.Native.Nat.{
  ℕ, zero, suc, ◌+◌, ◌*◌, ◌/◌, ◌%◌, ◌^◌, ◌≤◌, ◌<◌, max, digits, bit_or, bit_or-bitwise, ◌-◌,
}
use mathlib.Core.Path.{◌≡◌, refl, ap, ◌∙◌}
use mathlib.Core.Logic.{◌⊎◌}
use native.Mathlib.Omega.{arith}
use cs537_sp23_operating_sys.Common.Booleans.{◌==◌, if◌then◌else◌}
use cs537_sp23_operating_sys.Common.Stores.{Memory}

unfoldable pub load : Memory → ℕ → ℕ
load m a = m a + 0x100 * m (a + 1) + 0x10000 * m (a + 2) + 0x1000000 * m (a + 3)

unfoldable pub store : Memory → ℕ → ℕ → Memory
store m a w x =
    if x == a
    then w % 0x100
    else if x == a + 1
    then w / 0x100 % 0x100
    else if x == a + 2
    then w / 0x10000 % 0x100
    else if x == a + 3
    then w / 0x1000000 % 0x100
    else m x

pub load-store : (m : Memory) (a w : ℕ) → w < 2 ^ 32 → load (store m a w) a ≡ w
unfolding load store
load-store m a w h = ground arith

pub store_other : (m : Memory) (a w x : ℕ) → (x < a) ⊎ (a + 4 ≤ x) → store m a w x ≡ m x
unfolding store
store_other m a w x h = ground arith

pub load-eq :
    (m m' : Memory) (a : ℕ) → ((x : ℕ) → a ≤ x → x < a + 4 → m x ≡ m' x) → load m a ≡ load m' a
unfolding load
load-eq m m' a h = ground (arith, h a, h (a + 1), h (a + 2), h (a + 3))

pub load-store_ne :
    (m : Memory) (a b w : ℕ) → (b + 4 ≤ a) ⊎ (a + 4 ≤ b) → load (store m a w) b ≡ load m b
load-store_ne m a b w h = load-eq (store m a w) m b (λ x l u. store_other m a w x (ground arith))

abbrev or_digits : ℕ → ℕ → ℕ → ℕ
or_digits n a b = digits (λ b. b) max n a b

-- More rounds than the first number needs make no difference.
or_digits_rounds : (n m a b : ℕ) → a ≤ n → a ≤ m → or_digits n a b ≡ or_digits m a b
or_digits_rounds zero zero zero b p q = refl
or_digits_rounds zero (suc m) zero b p q = refl
or_digits_rounds (suc n) zero zero b p q = refl
or_digits_rounds (suc n) (suc m) zero b p q = refl
or_digits_rounds zero m (suc a) b p q = absurd (omega arith)
or_digits_rounds (suc n) zero (suc a) b p q = absurd (omega arith)
or_digits_rounds (suc n) (suc m) (suc a) b p q =
    let fewer = or_digits_rounds n m (suc a / 2) (b / 2) (omega arith) (omega arith) in omega arith

bit_or_halves :
    (a b : ℕ) → bit_or (suc a) b ≡ bit_or (suc a / 2) (b / 2) * 2 + max (suc a % 2) (b % 2)
bit_or_halves a b =
    let fewer = or_digits_rounds a (suc a / 2) (suc a / 2) (b / 2) (omega arith) (omega arith) in
    omega (arith, bit_or-bitwise (suc a) b, bit_or-bitwise (suc a / 2) (b / 2))

bit_or-zero : (b : ℕ) → bit_or 0 b ≡ b
bit_or-zero b = bit_or-bitwise 0 b

-- One binary digit that the first number does not have.
bit_or_double : (a b : ℕ) → bit_or (a * 2) b ≡ bit_or a (b / 2) * 2 + b % 2
bit_or_double zero b = omega (arith, bit_or-zero b, bit_or-zero (b / 2))
bit_or_double (suc a) b =
    let e : suc a * 2 ≡ suc (suc (a * 2)) = omega arith in
    let half : suc (suc (a * 2)) / 2 ≡ suc a = omega arith in
    let even : suc (suc (a * 2)) % 2 ≡ 0 = omega arith in
    rw e (omega (arith, bit_or_halves (suc (a * 2)) b, ap (λ x. bit_or x (b / 2)) half))

bit_or-none : (n a : ℕ) → a ≤ n → bit_or a 0 ≡ a
bit_or-none n zero h = bit_or-zero 0
bit_or-none zero (suc a) h = absurd (omega arith)
bit_or-none (suc n) (suc a) h =
    let rest = bit_or-none n (suc a / 2) (omega arith) in omega (arith, bit_or_halves a 0)

abbrev shift : ℕ → ℕ → ℕ
shift zero a = a
shift (suc k) a = shift k a * 2

bit_or-shift : (k a b : ℕ) → b < shift k 1 → bit_or (shift k a) b ≡ shift k a + b
bit_or-shift zero a b h =
    let e : b ≡ 0 = omega arith in rw e (bit_or-none a a (omega arith) ∙ omega arith)
bit_or-shift (suc k) a b h =
    let rest = bit_or-shift k a (b / 2) (omega arith) in omega (arith, bit_or_double (shift k a) b)

-- On the address of a page `|` adds the flags.
pub bit_or_page : (a f : ℕ) → a % 4096 ≡ 0 → f < 4096 → bit_or a f ≡ a + f
bit_or_page a f h l =
    let e : a ≡ shift 12 (a / 4096) = omega arith in rw e (bit_or-shift 12 (a / 4096) f l)

bit_or_step : (a b : ℕ) → bit_or a b ≡ bit_or (a / 2) (b / 2) * 2 + max (a % 2) (b % 2)
bit_or_step zero b = omega (arith, bit_or-zero b, bit_or-zero (b / 2))
bit_or_step (suc a) b = bit_or_halves a b

-- `|` with 2 sets the second bit.
pub bit_or_two : (w : ℕ) → bit_or w 2 ≡ w - w / 2 % 2 * 2 + 2
bit_or_two w = omega (
  arith,
  bit_or_step w 2,
  bit_or_step (w / 2) 1,
  bit_or-none (w / 2 / 2) (w / 2 / 2) (omega arith),
)

-- `|` with 1 sets the first bit.
pub bit_or_one : (w : ℕ) → bit_or w 1 ≡ w - w % 2 + 1
bit_or_one w = omega (arith, bit_or_step w 1, bit_or-none (w / 2) (w / 2) (omega arith))
