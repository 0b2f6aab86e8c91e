-- ===== src/Base/Bits.antt =====
-- Shifts, masks and the `|` of disjoint fields, at every width: the digit recursion of the native
-- bit operations gives the low bit, and induction on the width gives the rest.
use solarflare_capio_kernel.Base.{sym}
use native.Mathlib.Decide.{dec_lt}
use Prim.Native.Nat.{
  ℕ, zero, suc, ◌+◌, ◌-◌, ◌*◌, ◌/◌, ◌%◌, ◌^◌, ◌≤◌, ◌<◌, min, max, bit_and, bit_or, digits,
  bit_and-bitwise, bit_or-bitwise,
}
use mathlib.Core.Path.{◌≡◌, refl, ap, ◌∙◌, sym}
use native.Mathlib.Nat.{pow-suc, mod-lt, mod-eq_of_lt, div-add-mod, add-mul-mod_self_right}
use native.Mathlib.Omega.{arith}

-- x << k and x >> k.
abbrev pub shl : ℕ → ℕ → ℕ
shl x k = x * 2 ^ k

abbrev pub shr : ℕ → ℕ → ℕ
shr x k = x / 2 ^ k

-- A value stored in a uint32_t, a uint16_t and a uint64_t.
abbrev pub u32 : ℕ → ℕ
u32 x = x % 2 ^ 32

abbrev pub u16 : ℕ → ℕ
u16 x = x % 2 ^ 16

abbrev pub u64 : ℕ → ℕ
u64 x = x % 2 ^ 64

only_zero : (x : ℕ) → x < 1 → x ≡ 0
only_zero x lt = omega (arith, lt)

only_suc : (x y : ℕ) → x < y → y ≤ suc x → suc x ≡ y
only_suc x y lt le = omega (arith, lt, le)

-- Both operations are a recursion on binary digits: `z` for the part of the second number that
-- is left when the first one is used up, `f` for two digits. More fuel than the first number
-- changes nothing.
module _ (z : ℕ → ℕ) (f : ℕ → ℕ → ℕ) where
  fuel_down : (fuel x y : ℕ) → x ≤ fuel → digits z f (suc fuel) x y ≡ digits z f fuel x y
  fuel_down zero zero y le = refl
  fuel_down (suc fuel) zero y le = refl
  fuel_down zero (suc x) y le = absurd (omega (arith, le))
  fuel_down (suc fuel) (suc x) y le =
      ap (λ (t : ℕ). t * 2 + f (suc x % 2) (y % 2))
        (fuel_down fuel (suc x / 2) (y / 2) (omega (arith, le)))

  fuel_to : (most fuel x y : ℕ) → fuel ≤ most → x ≤ fuel → digits z f most x y ≡ digits z f fuel x y
  fuel_to zero fuel x y enough le =
      ap (λ (t : ℕ). digits z f t x y) (sym (only_zero fuel (omega (arith, enough))))
  fuel_to (suc most) fuel x y enough le = elim (dec_lt most fuel) [
    | yes all ↦ ap (λ (t : ℕ). digits z f t x y) (only_suc most fuel all enough)
    | no fewer ↦
        fuel_down most x y (omega (arith, fewer, le))
        ∙ fuel_to most fuel x y (omega (arith, fewer)) le
  ]

  low_digit :
      (x y : ℕ)
      → digits z f (suc x) (suc x) y
        ≡ digits z f (suc x / 2) (suc x / 2) (y / 2) * 2 + f (suc x % 2) (y % 2)
  low_digit x y =
      ap (λ (t : ℕ). t * 2 + f (suc x % 2) (y % 2))
        (fuel_to x (suc x / 2) (suc x / 2) (y / 2) (omega arith) (omega arith))

none_and : (y : ℕ) → bit_and 0 y ≡ 0
none_and y = bit_and-bitwise 0 y

none_or : (y : ℕ) → bit_or 0 y ≡ y
none_or y = bit_or-bitwise 0 y

and_halves : (x y : ℕ) → bit_and x y ≡ bit_and (x / 2) (y / 2) * 2 + min (x % 2) (y % 2)
and_halves zero y = none_and y ∙ omega (arith, none_and (y / 2))
and_halves (suc x) y =
    bit_and-bitwise (suc x) y
    ∙ low_digit (λ b. zero) min x y
    ∙ ap (λ (t : ℕ). t * 2 + min (suc x % 2) (y % 2)) (sym (bit_and-bitwise (suc x / 2) (y / 2)))

or_halves : (x y : ℕ) → bit_or x y ≡ bit_or (x / 2) (y / 2) * 2 + max (x % 2) (y % 2)
or_halves zero y = none_or y ∙ omega (arith, none_or (y / 2))
or_halves (suc x) y =
    bit_or-bitwise (suc x) y
    ∙ low_digit (λ b. b) max x y
    ∙ ap (λ (t : ℕ). t * 2 + max (suc x % 2) (y % 2)) (sym (bit_or-bitwise (suc x / 2) (y / 2)))

-- Below a bound that grows, so that half of a number is below the bound before.
and_none : (bound x : ℕ) → x < suc bound → bit_and x 0 ≡ 0
and_none zero x lt = ap (λ (t : ℕ). bit_and t 0) (only_zero x lt) ∙ none_and 0
and_none (suc bound) x lt = omega (arith, and_halves x 0, and_none bound (x / 2) (omega arith))

or_none : (bound x : ℕ) → x < suc bound → bit_or x 0 ≡ x
or_none zero x lt = ap (λ (t : ℕ). bit_or t 0) (only_zero x lt) ∙ none_or 0 ∙ omega arith
or_none (suc bound) x lt = omega (arith, or_halves x 0, or_none bound (x / 2) (omega arith))

pow_pos : (k : ℕ) → 0 < 2 ^ k
pow_pos zero = omega arith
pow_pos (suc k) = omega (arith, pow_pos k, pow-suc 2 k)

mod_unique : (x p q r : ℕ) → x ≡ r + q * p → r < p → x % p ≡ r
mod_unique x p q r e h = rw (e, add-mul-mod_self_right r q p) (mod-eq_of_lt h)

-- One digit of a remainder by a power of two.
mod_step : (k x : ℕ) → x % 2 ^ suc k ≡ x / 2 % 2 ^ k * 2 + x % 2
mod_step k x =
    mod_unique x (2 ^ suc k) (x / 2 / 2 ^ k) (x / 2 % 2 ^ k * 2 + x % 2)
      (omega (arith, div-add-mod (x / 2) (2 ^ k), ap (λ (t : ℕ). x / 2 / 2 ^ k * t) (pow-suc 2 k)))
      (omega (arith, mod-lt (x / 2) (pow_pos k), pow-suc 2 k))

half_mask : (k : ℕ) → (2 ^ suc k - 1) / 2 ≡ 2 ^ k - 1
half_mask k = omega (arith, pow_pos k, pow-suc 2 k)

-- x & (2^k - 1) is the remainder by 2^k.
pub bit_and_mask : (k x : ℕ) → bit_and x (2 ^ k - 1) ≡ x % 2 ^ k
bit_and_mask zero x = omega (arith, and_none x x (omega arith))
bit_and_mask (suc k) x =
    and_halves x (2 ^ suc k - 1)
    ∙ rw (half_mask k, bit_and_mask k (x / 2)) (omega (arith, mod_step k x, pow_pos k, pow-suc 2 k))

-- `a | (b << k)` is a sum, for `a` below 2^k.
pub bit_or_shl : (k a b : ℕ) → a < 2 ^ k → bit_or a (b * 2 ^ k) ≡ a + b * 2 ^ k
bit_or_shl zero zero b h = omega (arith, none_or (b * 1))
bit_or_shl zero (suc a) b h = absurd (omega arith)
bit_or_shl (suc k) a b h =
    or_halves a (b * 2 ^ suc k)
    ∙ rw (half, bit_or_shl k (a / 2) b (omega (arith, pow-suc 2 k)))
        (omega (arith, pow-suc 2 k, ap (λ (t : ℕ). b * t) (pow-suc 2 k)))
  where
    half : b * 2 ^ suc k / 2 ≡ b * 2 ^ k
    half = omega (arith, ap (λ (t : ℕ). b * t) (pow-suc 2 k))

or_swap : (bound x y : ℕ) → x < suc bound → bit_or x y ≡ bit_or y x
or_swap zero x y lt =
    ap (λ (t : ℕ). bit_or t y) (only_zero x lt)
    ∙ none_or y
    ∙ sym (or_none y y (omega arith))
    ∙ ap (bit_or y) (sym (only_zero x lt))
or_swap (suc bound) x y lt =
    omega (arith, or_halves x y, or_halves y x, or_swap bound (x / 2) (y / 2) (omega arith))

pub bit_or_comm : (a b : ℕ) → bit_or a b ≡ bit_or b a
bit_or_comm a b = or_swap a a b (omega arith)
