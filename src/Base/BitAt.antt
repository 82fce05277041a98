-- ===== src/Base/BitAt.antt =====
-- One bit of a number, of a bitwise result, and of an array of bytes.
use Prim.Native.Nat.{ℕ, zero, suc, ◌+◌, ◌*◌, ◌/◌, ◌%◌, ◌^◌, ◌<◌, max, bit_and, bit_or}
use mathlib.Core.Path.{◌≡◌, refl, sym, ◌∙◌, ap}
use mathlib.Core.Logic.{◌≢◌}
use native.Mathlib.Nat.{pow-suc, div-div-eq-div-mul, div_self, zero-div}
use native.Mathlib.Omega.{arith}
use darktide_mods.Base.Bits.{pow_pos, bit_and_digit, bit_or_digit, bit_and-mask, mod-double}

abbrev pub bit : ℕ → ℕ → ℕ
bit x k = x / 2 ^ k % 2

pub bit-half : (x k : ℕ) → bit x (suc k) ≡ bit (x / 2) k
bit-half x k =
    ap (λ t. t % 2) (ap (λ t. x / t) (pow-suc 2 k ∙ two) ∙ sym (div-div-eq-div-mul x 2 (2 ^ k)))
  where
    two : 2 ^ k * 2 ≡ 2 * 2 ^ k
    two = omega arith

pub bit_zero : (k : ℕ) → bit 0 k ≡ 0
bit_zero k = ap (λ t. t % 2) (zero-div (2 ^ k))

pub bit-bit_or : (x y k : ℕ) → bit (bit_or x y) k ≡ max (bit x k) (bit y k)
bit-bit_or x y zero = omega (arith, bit_or_digit x y)
bit-bit_or x y (suc k) =
    bit-half (bit_or x y) k
    ∙ ap (λ t. bit t k) {x = bit_or x y / 2} {y = bit_or (x / 2) (y / 2)}
        (omega (arith, bit_or_digit x y))
    ∙ bit-bit_or (x / 2) (y / 2) k
    ∙ rw (bit-half x k, bit-half y k) refl

-- A power of two has one bit.
pub bit_pow_self : (k : ℕ) → bit (2 ^ k) k ≡ 1
bit_pow_self k = ap (λ t. t % 2) (div_self (pow_pos k))

pub bit_pow_other : (i k : ℕ) → i ≢ k → bit (2 ^ i) k ≡ 0
bit_pow_other zero zero h = absurd (h refl)
bit_pow_other zero (suc k) h = bit-half 1 k ∙ bit_zero k
bit_pow_other (suc i) zero h = omega (arith, pow-suc 2 i)
bit_pow_other (suc i) (suc k) h =
    bit-half (2 ^ suc i) k
    ∙ ap (λ t. bit t k) {x = 2 ^ suc i / 2} {y = 2 ^ i} (omega (arith, pow-suc 2 i))
    ∙ bit_pow_other i k (λ e. h (ap suc e))

pub bit_and_pow : (x i : ℕ) → bit_and x (2 ^ i) ≡ bit x i * 2 ^ i
bit_and_pow x zero = omega (arith, bit_and-mask 1 x)
bit_and_pow x (suc i) =
    bit_and_digit x (2 ^ suc i)
    ∙ rw (half, even, bit_and_pow (x / 2) i, bit-half x i)
        (omega (arith, ap (λ t. bit (x / 2) i * t) (pow-suc 2 i)))
  where
    half : 2 ^ suc i / 2 ≡ 2 ^ i
    half = omega (arith, pow-suc 2 i)

    even : 2 ^ suc i % 2 ≡ 0
    even = omega (arith, pow-suc 2 i)

-- The low bits of a number are those of its remainder.
pub bit-mod : (x w k : ℕ) → k < w → bit (x % 2 ^ w) k ≡ bit x k
bit-mod x zero k h = absurd (omega arith)
bit-mod x (suc w) zero h =
    ap (λ t. bit t 0) (ap (λ t. x % t) (pow-suc 2 w) ∙ mod-double x (2 ^ w) (pow_pos w))
    ∙ omega arith
bit-mod x (suc w) (suc k) h =
    ap (λ t. bit t (suc k)) (ap (λ t. x % t) (pow-suc 2 w) ∙ mod-double x (2 ^ w) (pow_pos w))
    ∙ bit-half (x / 2 % 2 ^ w * 2 + x % 2) k
    ∙ ap (λ t. bit t k) {x = (x / 2 % 2 ^ w * 2 + x % 2) / 2} {y = x / 2 % 2 ^ w} (omega arith)
    ∙ bit-mod (x / 2) w k (omega arith)
    ∙ sym (bit-half x k)
