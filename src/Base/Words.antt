-- ===== src/Base/Words.antt =====
-- Machine words as native numbers, and masks of low bits.
use Prim.Native.Nat.{
  ℕ, zero, suc, ◌+◌, ◌-◌, ◌*◌, ◌/◌, ◌%◌, ◌^◌, ◌≤◌, ◌<◌, ◌∣◌, min, bit_and, digits, bit_and-bitwise,
}
use mathlib.Core.Path.{◌≡◌, refl, sym, ◌∙◌, ap}
use mathlib.Core.Logic.{◌≢◌}
use native.Mathlib.Decide.{dec_lt}
use native.Mathlib.Nat.{
  pow-suc, one-le-pow, mod-eq_of_lt, mod-eq-sub-mod, mod-add-mod, mod-lt, dvd-mul_right_of_dvd,
  dvd_refl, add-mul-mod_self_left, mod-add-div,
}
use native.Mathlib.Omega.{arith}

-- `std::size_t` and `std::uint32_t` arithmetic wraps.
abbrev pub word_size : ℕ
word_size = 2 ^ 64

abbrev pub u32_size : ℕ
u32_size = 2 ^ 32

abbrev pub add_size : ℕ → ℕ → ℕ
add_size a b = (a + b) % 2 ^ 64

abbrev pub sub_size : ℕ → ℕ → ℕ
sub_size a b = (a + 2 ^ 64 - b) % 2 ^ 64

-- Halving commutes with reduction modulo an even number.
mod-double : (a p : ℕ) → 0 < p → a % (p * 2) ≡ a / 2 % p * 2 + a % 2
mod-double a p h =
    ap (λ t. t % (p * 2)) split
    ∙ add-mul-mod_self_left (a / 2 % p * 2 + a % 2) (p * 2) (a / 2 / p)
    ∙ mod-eq_of_lt small
  where
    split : a ≡ a / 2 % p * 2 + a % 2 + p * 2 * (a / 2 / p)
    split = omega (arith, ap (λ t. t * 2) (mod-add-div (a / 2) p))

    small : a / 2 % p * 2 + a % 2 < p * 2
    small = omega (arith, mod-lt (a / 2) h)

-- The mask `2 ^ k - 1` keeps the remainder modulo `2 ^ k`: the digits of the number and of the mask are
-- taken off together, on the number as the count of digits to go.
mask_digits : (left k a : ℕ) → a ≤ left → digits (λ b. zero) min left a (2 ^ k - 1) ≡ a % 2 ^ k
mask_digits zero k a le = rw a_zero (sym (mod-eq_of_lt {n = 0} (one-le-pow k 2 (omega arith))))
  where
    a_zero : a ≡ 0
    a_zero = omega arith
mask_digits (suc left) k zero le = sym (mod-eq_of_lt {n = 0} (one-le-pow k 2 (omega arith)))
mask_digits (suc left) zero (suc a) le = omega (arith, mask_digits left 0 (suc a / 2) (omega arith))
mask_digits (suc left) (suc k) (suc a) le = rw pow-suc (
    omega (
      arith,
      ap (digits (λ b. zero) min left (suc a / 2)) half,
      mask_digits left k (suc a / 2) (omega arith),
      mod-double (suc a) (2 ^ k) pos,
      pos,
    ))
  where
    pos : 0 < 2 ^ k
    pos = one-le-pow k 2 (omega arith)

    half : (2 ^ k * 2 - 1) / 2 ≡ 2 ^ k - 1
    half = omega (arith, pos)

pub bit_and-mask : (k a : ℕ) → bit_and a (2 ^ k - 1) ≡ a % 2 ^ k
bit_and-mask k a = bit_and-bitwise a (2 ^ k - 1) ∙ mask_digits a k a (omega arith)

pub pow-dvd : (k j n : ℕ) → k + j ≡ n → 2 ^ k ∣ 2 ^ n
pow-dvd k zero n e = let e' : k ≡ n = omega arith in rw e' (dvd_refl (2 ^ n))
pow-dvd k (suc j) n e =
    let e' : n ≡ suc (k + j) = omega arith in
    rw (e', pow-suc) (dvd-mul_right_of_dvd (2 ^ k) (pow-dvd k j (k + j) refl) 2)

-- Fewer than `m` steps round a ring of `m` slots do not come back to the start.
pub add-mod-ne : (m a d : ℕ) → 0 < d → d < m → (a + d) % m ≢ a % m
add-mod-ne m a d pos lt = rw (← mod-add-mod a m d) (elim (dec_lt (a % m + d) m) [
  | yes p ↦ omega (arith, mod-eq_of_lt p)
  | no p ↦ omega (
    arith,
    r_lt,
    mod-eq-sub-mod {n = a % m + d} {m = m} (omega arith),
    mod-eq_of_lt {n = a % m + d - m} {m = m} (omega (arith, r_lt)),
  )
])
  where
    r_lt : a % m < m
    r_lt = mod-lt a (omega arith)
