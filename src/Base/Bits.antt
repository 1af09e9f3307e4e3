-- ===== src/Base/Bits.antt =====
-- Masks and disjoint fields under `&` and `|`, as arithmetic, for every width. The native
-- operations mean a recursion on binary digits; one equation for the lowest digit comes first.
use Prim.Native.Nat.{
  ℕ, zero, suc, ◌+◌, ◌-◌, ◌*◌, ◌/◌, ◌%◌, ◌^◌, ◌≤◌, ◌<◌, min, max, bit_and, bit_or, digits, bitwise,
  bit_and-bitwise, bit_or-bitwise,
}
use mathlib.Core.Path.{◌≡◌, refl, ap}
use native.Mathlib.Nat.{pow-suc, one-le-pow, le_refl}
use native.Mathlib.Omega.{arith}

-- `digits` computes the same with any fuel that is at least its first number.
module _ (rest : ℕ → ℕ) (op : ℕ → ℕ → ℕ) where
  digits_same :
      (fuel more x y : ℕ) → x ≤ more → x ≤ fuel → digits rest op fuel x y ≡ digits rest op more x y
  digits_same zero zero x y k h = refl
  digits_same (suc fuel) zero zero y k h = refl
  digits_same zero (suc more) zero y k h = refl
  digits_same (suc fuel) (suc more) zero y k h = refl
  digits_same zero (suc more) (suc x) y k h = absurd (omega arith)
  digits_same (suc fuel) zero (suc x) y k h = absurd (omega arith)
  digits_same (suc fuel) (suc more) (suc x) y k h =
      let half : suc x / 2 ≤ x = omega arith in
      rw (digits_same fuel more (suc x / 2) (y / 2) (omega arith) (omega arith))

  bitwise_next :
      (x y : ℕ)
      → bitwise rest op (suc x) y ≡ op (suc x % 2) (y % 2) + 2 * bitwise rest op (suc x / 2) (y / 2)
  bitwise_next x y =
      let half : suc x / 2 ≤ x = omega arith in
      omega (arith, digits_same x (suc x / 2) (suc x / 2) (y / 2) (le_refl _) half)

pub bit_or_digit : (x y : ℕ) → bit_or x y ≡ max (x % 2) (y % 2) + 2 * bit_or (x / 2) (y / 2)
bit_or_digit zero y = simp bit_or-bitwise (omega arith)
bit_or_digit (suc x) y = simp bit_or-bitwise (bitwise_next (λ n. n) max x y)

pub bit_and_digit : (x y : ℕ) → bit_and x y ≡ min (x % 2) (y % 2) + 2 * bit_and (x / 2) (y / 2)
bit_and_digit zero y = simp bit_and-bitwise (omega arith)
bit_and_digit (suc x) y = simp bit_and-bitwise (bitwise_next (λ n. 0) min x y)

double_pow : (q k : ℕ) → q * 2 ^ suc k ≡ 2 * (q * 2 ^ k)
double_pow q k = omega (arith, ap (λ (t : ℕ). q * t) (pow-suc 2 k))

-- Both operations work on the fields above and below bit `k` apart.
pub bit_and_split :
    (k p q r s : ℕ)
    → r < 2 ^ k
    → s < 2 ^ k
    → bit_and (p * 2 ^ k + r) (q * 2 ^ k + s) ≡ bit_and p q * 2 ^ k + bit_and r s
bit_and_split zero p q r s hr hs = ground arith
bit_and_split (suc k) p q r s hr hs = ground (
  arith,
  bit_and_digit (p * 2 ^ suc k + r) (q * 2 ^ suc k + s),
  bit_and_digit r s,
  double_pow p k,
  double_pow q k,
  double_pow (bit_and p q) k,
  pow-suc 2 k,
  bit_and_split k p q (r / 2) (s / 2) (omega (arith, pow-suc 2 k)) (omega (arith, pow-suc 2 k)),
)

pub bit_or_split :
    (k p q r s : ℕ)
    → r < 2 ^ k
    → s < 2 ^ k
    → bit_or (p * 2 ^ k + r) (q * 2 ^ k + s) ≡ bit_or p q * 2 ^ k + bit_or r s
bit_or_split zero p q r s hr hs = ground arith
bit_or_split (suc k) p q r s hr hs = ground (
  arith,
  bit_or_digit (p * 2 ^ suc k + r) (q * 2 ^ suc k + s),
  bit_or_digit r s,
  double_pow p k,
  double_pow q k,
  double_pow (bit_or p q) k,
  pow-suc 2 k,
  bit_or_split k p q (r / 2) (s / 2) (omega (arith, pow-suc 2 k)) (omega (arith, pow-suc 2 k)),
)

zero-bit_and : (b : ℕ) → bit_and 0 b ≡ 0
zero-bit_and b = simp bit_and-bitwise refl

zero-bit_or : (b : ℕ) → bit_or 0 b ≡ b
zero-bit_or b = simp bit_or-bitwise refl

-- Zero as the second number, by halving the first.
bit_and_zero_below : (limit x : ℕ) → x < limit → bit_and x 0 ≡ 0
bit_and_zero_below zero x h = absurd (omega arith)
bit_and_zero_below (suc limit) zero h = refl
bit_and_zero_below (suc limit) (suc x) h =
    let higher = bit_and_zero_below limit (suc x / 2) (omega arith) in
    omega (arith, higher, bit_and_digit (suc x) 0)

pub bit_and-zero : (x : ℕ) → bit_and x 0 ≡ 0
bit_and-zero x = bit_and_zero_below (suc x) x (omega arith)

bit_or_zero_below : (limit x : ℕ) → x < limit → bit_or x 0 ≡ x
bit_or_zero_below zero x h = absurd (omega arith)
bit_or_zero_below (suc limit) zero h = refl
bit_or_zero_below (suc limit) (suc x) h =
    let higher = bit_or_zero_below limit (suc x / 2) (omega arith) in
    omega (arith, higher, bit_or_digit (suc x) 0)

pub bit_or-zero : (x : ℕ) → bit_or x 0 ≡ x
bit_or-zero x = bit_or_zero_below (suc x) x (omega arith)

-- A mask of `k` ones keeps the low `k` bits.
pub bit_and_ones : (k a : ℕ) → a < 2 ^ k → bit_and a (2 ^ k - 1) ≡ a
bit_and_ones zero a h = let e : a ≡ 0 = omega arith in rw e
bit_and_ones (suc k) a h = ground (
  arith,
  bit_and_digit a (2 ^ suc k - 1),
  pow-suc 2 k,
  one-le-pow k 2,
  bit_and_ones k (a / 2) (omega (arith, pow-suc 2 k)),
)

pub bit_and_low : (k a : ℕ) → bit_and a (2 ^ k - 1) ≡ a % 2 ^ k
bit_and_low k a = ground (
  arith,
  one-le-pow k 2,
  bit_and_split k (a / 2 ^ k) 0 (a % 2 ^ k) (2 ^ k - 1),
  bit_and-zero (a / 2 ^ k),
  bit_and_ones k (a % 2 ^ k),
)

-- A field shifted past another one is joined to it by a sum.
pub bit_or_join : (k q r : ℕ) → r < 2 ^ k → bit_or (q * 2 ^ k) r ≡ q * 2 ^ k + r
bit_or_join k q r h =
    ground (arith, one-le-pow k 2, bit_or_split k q 0 0 r, bit_or-zero q, zero-bit_or r)

-- `& ~0xFFF` on a 64-bit word clears the low twelve bits.
pub bit_and_page : (a : ℕ) → a < 2 ^ 64 → bit_and a 0xFFFFFFFFFFFFF000 ≡ a / 4096 * 4096
bit_and_page a h = ground (
  arith,
  bit_and_split 12 (a / 4096) (2 ^ 52 - 1) (a % 4096) 0 (omega arith) (omega arith),
  bit_and_ones 52 (a / 4096) (omega arith),
  bit_and-zero (a % 4096),
)

-- `0xFFFF000000000000 |` on a 48-bit address is a sum.
pub bit_or_kernel : (a : ℕ) → a < 2 ^ 48 → bit_or 0xFFFF000000000000 a ≡ 0xFFFF000000000000 + a
bit_or_kernel a h = bit_or_join 48 0xFFFF a h

-- The mask may come first.
bit_and_comm_below : (limit a b : ℕ) → a < limit → bit_and a b ≡ bit_and b a
bit_and_comm_below zero a b h = absurd (omega arith)
bit_and_comm_below (suc limit) zero b h = omega (arith, zero-bit_and b, bit_and-zero b)
bit_and_comm_below (suc limit) (suc a) b h =
    let higher = bit_and_comm_below limit (suc a / 2) (b / 2) (omega arith) in
    omega (arith, higher, bit_and_digit (suc a) b, bit_and_digit b (suc a))

pub bit_and_comm : (a b : ℕ) → bit_and a b ≡ bit_and b a
bit_and_comm a b = bit_and_comm_below (suc a) a b (omega arith)
