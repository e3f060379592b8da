-- ===== src/Prelude/Bits.antt =====
-- Bytes and words: masks and shifts as arithmetic. Each law on a byte is a table that is checked by
-- evaluation.
use Prim.Native.Nat.{
  ℕ, zero, suc, ◌+◌, ◌*◌, ◌/◌, ◌%◌, ◌^◌, ◌<◌, bit_and, bit_or, max, digits, bit_or-bitwise, ◌≤◌,
}
use mathlib.Core.Path.{◌≡◌, refl, ap, ◌∙◌}
use mathlib.Core.Bool.{Bool, true, ◌&&◌}
use native.Mathlib.Omega.{arith}
use native.Mathlib.Nat.{pow-suc}
use mqtt_server_go.Prelude.Tests.{◌==◌, ==_iff}

-- `x << k` and `x >> k` on a byte.
abbrev pub shl8 : ℕ → ℕ → ℕ
shl8 x k = x * 2 ^ k % 256

abbrev pub shr : ℕ → ℕ → ℕ
shr x k = x / 2 ^ k

unfoldable pub all_below : ℕ → (ℕ → Bool) → Bool
all_below zero test = true
all_below (suc bound) test = all_below bound test && test bound

pub all_below_sound :
    (bound : ℕ) (test : ℕ → Bool) (i : ℕ) → all_below bound test ≡ true → i < bound → test i ≡ true
unfolding all_below
all_below_sound (suc bound) test i holds below = ground (arith, all_below_sound bound test i)
all_below_sound zero test i holds below = absurd (omega arith)

low_bits_table : all_below 256 (λ c. bit_and c 127 == c % 128) ≡ true
unfolding all_below
low_bits_table = refl

-- `c & 127`
pub low_bits : (c : ℕ) → c < 256 → bit_and c 127 ≡ c % 128
low_bits c h = (==_iff _ _).0 (all_below_sound 256 _ c low_bits_table h)

top_bit_table : all_below 256 (λ c. bit_and c 128 == c / 128 * 128) ≡ true
unfolding all_below
top_bit_table = refl

-- `c & 128`
pub top_bit : (c : ℕ) → c < 256 → bit_and c 128 ≡ c / 128 * 128
top_bit c h = (==_iff _ _).0 (all_below_sound 256 _ c top_bit_table h)

set_top_bit_table : all_below 128 (λ c. bit_or c 128 == c + 128) ≡ true
unfolding all_below
set_top_bit_table = refl

-- `c |= 0x80`
pub set_top_bit : (c : ℕ) → c < 128 → bit_or c 128 ≡ c + 128
set_top_bit c h = (==_iff _ _).0 (all_below_sound 128 _ c set_top_bit_table h)

high_nibble_table : all_below 256 (λ c. bit_and c 0xf0 == c / 16 * 16) ≡ true
unfolding all_below
high_nibble_table = refl

-- `c & 0xF0`
pub high_nibble : (c : ℕ) → c < 256 → bit_and c 0xf0 ≡ c / 16 * 16
high_nibble c h = (==_iff _ _).0 (all_below_sound 256 _ c high_nibble_table h)

or_digits_fuel :
    (n m a b : ℕ)
    → a ≤ n
    → a ≤ m
    → digits (λ (b : ℕ). b) max n a b ≡ digits (λ (b : ℕ). b) max m a b
or_digits_fuel zero zero a b p q = refl
or_digits_fuel zero (suc m) zero b p q = refl
or_digits_fuel zero (suc m) (suc a) b p q = absurd (omega arith)
or_digits_fuel (suc n) zero zero b p q = refl
or_digits_fuel (suc n) zero (suc a) b p q = absurd (omega arith)
or_digits_fuel (suc n) (suc m) zero b p q = refl
or_digits_fuel (suc n) (suc m) (suc a) b p q =
    omega (arith, or_digits_fuel n m (suc a / 2) (b / 2) (omega arith) (omega arith))

pub zero-bit_or : (b : ℕ) → bit_or 0 b ≡ b
zero-bit_or b = bit_or-bitwise 0 b

-- The lowest digit of an or.
bit_or_step : (a b : ℕ) → bit_or a b ≡ bit_or (a / 2) (b / 2) * 2 + max (a % 2) (b % 2)
bit_or_step zero b = omega (arith, zero-bit_or b, zero-bit_or (b / 2))
bit_or_step (suc a) b = omega (
  arith,
  bit_or-bitwise (suc a) b,
  bit_or-bitwise (suc a / 2) (b / 2),
  or_digits_fuel a (suc a / 2) (suc a / 2) (b / 2) (omega arith) (omega arith),
)

bit_or-zero_fuel : (n a : ℕ) → a ≤ n → bit_or a 0 ≡ a
bit_or-zero_fuel n zero h = zero-bit_or 0
bit_or-zero_fuel zero (suc a) h = absurd (omega arith)
bit_or-zero_fuel (suc n) (suc a) h =
    omega (arith, bit_or_step (suc a) 0, bit_or-zero_fuel n (suc a / 2) (omega arith))

bit_or_double : (x b : ℕ) → bit_or (x * 2) b ≡ bit_or x (b / 2) * 2 + b % 2
bit_or_double x b =
    let half : x * 2 / 2 ≡ x = omega arith in rw (bit_or_step (x * 2) b, half) (omega arith)

-- An or is a sum where no digit meets another.
pub bit_or_disjoint : (k a b : ℕ) → b < 2 ^ k → bit_or (a * 2 ^ k) b ≡ a * 2 ^ k + b
bit_or_disjoint zero a zero h = bit_or-zero_fuel (a * 2 ^ 0) (a * 2 ^ 0) (omega arith) ∙ omega arith
bit_or_disjoint zero a (suc b) h = absurd (omega arith)
bit_or_disjoint (suc k) a b h =
    let twice : a * 2 ^ suc k ≡ a * 2 ^ k * 2 = omega (arith, ap (◌*◌ a) (pow-suc 2 k)) in
    rw twice (
      omega (
        arith,
        bit_or_double (a * 2 ^ k) b,
        bit_or_disjoint k a (b / 2) (omega (arith, pow-suc 2 k)),
      ))
