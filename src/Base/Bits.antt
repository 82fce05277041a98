-- ===== src/Base/Bits.antt =====
-- Masks and disjoint or, on numbers of any width: `x & (2 ^ k - 1)` is `x % 2 ^ k`, and
-- `(x << k) | b` is a sum when b fits k bits.
use Prim.Native.Nat.{
  ℕ, zero, suc, ◌+◌, ◌-◌, ◌*◌, ◌/◌, ◌%◌, ◌^◌, ◌≤◌, ◌<◌, min, max, digits, bit_and, bit_or,
  bit_and-bitwise, bit_or-bitwise,
}
use mathlib.Core.Bool.{Bool, true, ◌&&◌}
use mathlib.Core.Path.{◌≡◌, refl, ◌∙◌, ap}
use native.Mathlib.Nat.{pow-suc, mod-lt, div-add-mod, mod-eq_of_lt, mul-add-mod_self_left}
use native.Mathlib.Omega.{arith}

-- The digit recursion of `&` and `|` gives the same for any count of rounds that is enough.
digits-enough :
    (z : ℕ → ℕ) (f : ℕ → ℕ → ℕ) (n m a b : ℕ) → a ≤ n → a ≤ m → digits z f n a b ≡ digits z f m a b
digits-enough z f zero zero a b p q = refl
digits-enough z f zero (suc m) zero b p q = refl
digits-enough z f zero (suc m) (suc a) b p q = absurd (omega arith)
digits-enough z f (suc n) zero zero b p q = refl
digits-enough z f (suc n) zero (suc a) b p q = absurd (omega arith)
digits-enough z f (suc n) (suc m) zero b p q = refl
digits-enough z f (suc n) (suc m) (suc a) b p q =
    omega (arith, digits-enough z f n m (suc a / 2) (b / 2) (omega arith) (omega arith))

bit_and_nil : (n a : ℕ) → digits (λ _. 0) min n a 0 ≡ 0
bit_and_nil zero a = refl
bit_and_nil (suc n) zero = refl
bit_and_nil (suc n) (suc a) = omega (arith, bit_and_nil n (suc a / 2))

pub bit_and_digit : (a b : ℕ) → bit_and a b ≡ bit_and (a / 2) (b / 2) * 2 + min (a % 2) (b % 2)
bit_and_digit zero b = omega (arith, bit_and-bitwise 0 b, bit_and-bitwise 0 (b / 2))
bit_and_digit (suc a) b = omega (
  arith,
  bit_and-bitwise (suc a) b,
  bit_and-bitwise (suc a / 2) (b / 2),
  digits-enough (λ _. 0) min a (suc a / 2) (suc a / 2) (b / 2) (omega arith) (omega arith),
)

pub bit_or_digit : (a b : ℕ) → bit_or a b ≡ bit_or (a / 2) (b / 2) * 2 + max (a % 2) (b % 2)
bit_or_digit zero b = omega (arith, bit_or-bitwise 0 b, bit_or-bitwise 0 (b / 2))
bit_or_digit (suc a) b = omega (
  arith,
  bit_or-bitwise (suc a) b,
  bit_or-bitwise (suc a / 2) (b / 2),
  digits-enough (λ c. c) max a (suc a / 2) (suc a / 2) (b / 2) (omega arith) (omega arith),
)

-- Quotient and remainder are unique.
pub mod_of_parts : (m q r : ℕ) → r < m → (m * q + r) % m ≡ r
mod_of_parts m q r h = mul-add-mod_self_left m q r ∙ mod-eq_of_lt h

pub pow_pos : (k : ℕ) → 0 < 2 ^ k
pow_pos zero = omega arith
pow_pos (suc k) = omega (arith, pow_pos k, pow-suc 2 k)

pub mod-double : (h m : ℕ) → 0 < m → h % (m * 2) ≡ h / 2 % m * 2 + h % 2
mod-double h m p =
    ap (λ t. t % (m * 2)) (parts (h / 2 / m) (h / 2 % m) (div-add-mod (h / 2) m))
    ∙ mod_of_parts (m * 2) (h / 2 / m) (h / 2 % m * 2 + h % 2)
        (omega (arith, mod-lt (h / 2) {m = m} p))
  where
    parts : (q r : ℕ) → m * q + r ≡ h / 2 → h ≡ m * 2 * q + (r * 2 + h % 2)
    parts q r e = omega arith

-- `h & (2 ^ k - 1)` keeps the low k bits.
pub bit_and-mask : (k h : ℕ) → bit_and h (2 ^ k - 1) ≡ h % 2 ^ k
bit_and-mask zero h = omega (arith, bit_and-bitwise h 0, bit_and_nil h h)
bit_and-mask (suc k) h =
    bit_and_digit h (2 ^ suc k - 1)
    ∙ rw (half, odd, bit_and-mask k (h / 2))
        (omega (arith, mod-double h (2 ^ k) (pow_pos k), ap (λ t. h % t) (pow-suc 2 k)))
  where
    half : (2 ^ suc k - 1) / 2 ≡ 2 ^ k - 1
    half = omega (arith, pow_pos k, pow-suc 2 k)

    odd : (2 ^ suc k - 1) % 2 ≡ 1
    odd = omega (arith, pow_pos k, pow-suc 2 k)

bit_or_nil : (n a : ℕ) → a ≤ n → bit_or a 0 ≡ a
bit_or_nil n zero h = refl
bit_or_nil zero (suc a) h = absurd (omega arith)
bit_or_nil (suc n) (suc a) h =
    omega (arith, bit_or_digit (suc a) 0, bit_or_nil n (suc a / 2) (omega arith))

-- `x << k | b` for b of k bits.
pub bit_or-shift : (k x b : ℕ) → b < 2 ^ k → bit_or (x * 2 ^ k) b ≡ x * 2 ^ k + b
bit_or-shift zero x zero h = omega (arith, bit_or_nil (x * 1) (x * 1) (omega arith))
bit_or-shift zero x (suc b) h = absurd (omega arith)
bit_or-shift (suc k) x b h =
    bit_or_digit (x * 2 ^ suc k) b
    ∙ rw (half, even, bit_or-shift k x (b / 2) (omega (arith, pow-suc 2 k)))
        (omega (arith, ap (λ t. x * t) (pow-suc 2 k)))
  where
    half : x * 2 ^ suc k / 2 ≡ x * 2 ^ k
    half = omega (arith, ap (λ t. x * t) (pow-suc 2 k))

    even : x * 2 ^ suc k % 2 ≡ 0
    even = omega (arith, ap (λ t. x * t) (pow-suc 2 k))

-- A test of every number below a bound, by evaluation.
unfoldable pub all_below : ℕ → (ℕ → Bool) → Bool
all_below zero p = true
all_below (suc n) p = p n && all_below n p

pub all_below_lem : (n : ℕ) (p : ℕ → Bool) (x : ℕ) → all_below n p ≡ true → x < n → p x ≡ true
unfolding all_below
all_below_lem zero p x h lt = absurd (omega arith)
all_below_lem (suc n) p x h lt = ground (arith, all_below_lem n p x)

-- A shift by eight bits on uint32_t keeps the low three bytes.
pub bit_or-byte : (x b : ℕ) → b < 2 ^ 8 → bit_or (x * 2 ^ 8 % 2 ^ 32) b ≡ x % 2 ^ 24 * 2 ^ 8 + b
bit_or-byte x b h =
    ap (λ t. bit_or t b) {x = x * 2 ^ 8 % 2 ^ 32} {y = x % 2 ^ 24 * 2 ^ 8} (omega arith)
    ∙ bit_or-shift 8 (x % 2 ^ 24) b h
