-- ===== src/Prelude/Bits.antt =====
-- The masks and shifts of a word whose two low bits are a tag.
use Prim.Native.Nat.{
  ℕ, zero, suc, ◌+◌, ◌-◌, ◌*◌, ◌/◌, ◌%◌, ◌^◌, ◌≤◌, ◌<◌, min, max, bit_and, bit_or, digits, bitwise,
  bit_and-bitwise, bit_or-bitwise,
}
use mathlib.Core.Path.{◌≡◌, refl, ap, ◌∙◌}
use native.Mathlib.Omega.{arith}
use native.Mathlib.Nat.{pow-suc}

module _ (z : ℕ → ℕ) (f : ℕ → ℕ → ℕ) where
  digits_more : (n a b : ℕ) → a ≤ n → digits z f (suc n) a b ≡ digits z f n a b
  digits_more zero zero b h = refl
  digits_more zero (suc a) b h = absurd (omega arith)
  digits_more (suc n) zero b h = refl
  digits_more (suc n) (suc a) b h = omega (arith, digits_more n (suc a / 2) (b / 2) (omega arith))

  -- More digits than the first number has change nothing.
  digits_spare : (k n a b : ℕ) → n ≡ k + a → digits z f n a b ≡ bitwise z f a b
  digits_spare zero n a b h =
      let none_spare : n ≡ a = omega arith in ap (λ fuel. digits z f fuel a b) none_spare
  digits_spare (suc k) zero a b h = absurd (omega arith)
  digits_spare (suc k) (suc n) a b h =
      digits_more n a b (omega arith) ∙ digits_spare k n a b (omega arith)

  module _ (op : ℕ → ℕ → ℕ) (law : (a b : ℕ) → op a b ≡ bitwise z f a b)
      (zeros : (b : ℕ) → z b ≡ z (b / 2) * 2 + f 0 (b % 2)) where
    -- An operation on the digits works on the last digits and on the rest.
    halves : (a b : ℕ) → op a b ≡ op (a / 2) (b / 2) * 2 + f (a % 2) (b % 2)
    halves zero b = law 0 b ∙ zeros b ∙ rw (law 0 (b / 2)) refl
    halves (suc a) b = omega (
      arith,
      digits_spare (a - suc a / 2) a (suc a / 2) (b / 2) (omega arith),
      law (suc a) b,
      law (suc a / 2) (b / 2),
    )

    -- With a second number of zeros, the operation is what it does to the digits, `g`.
    against_zero :
        (g : ℕ → ℕ)
        → op 0 0 ≡ g 0
        → ((a : ℕ) → g a ≡ g (a / 2) * 2 + f (a % 2) 0)
        → (n a : ℕ) → a ≤ n
        → op a 0 ≡ g a
    against_zero g start splits n zero h = start
    against_zero g start splits zero (suc a) h = absurd (omega arith)
    against_zero g start splits (suc n) (suc a) h =
        let shorter = against_zero g start splits n (suc a / 2) (omega arith) in
        omega (arith, shorter, halves (suc a) 0, splits (suc a))

bit_or_step : (a b : ℕ) → bit_or a b ≡ bit_or (a / 2) (b / 2) * 2 + max (a % 2) (b % 2)
bit_or_step = halves (λ b. b) max bit_or bit_or-bitwise (λ b. omega arith)

bit_or_zero : (a : ℕ) → bit_or a 0 ≡ a
bit_or_zero a =
    against_zero (λ b. b) max bit_or bit_or-bitwise (λ b. omega arith) (λ n. n) (bit_or-bitwise 0 0)
      (λ n. omega arith) a a (omega arith)

bit_and_step : (a b : ℕ) → bit_and a b ≡ bit_and (a / 2) (b / 2) * 2 + min (a % 2) (b % 2)
bit_and_step = halves (λ b. 0) min bit_and bit_and-bitwise (λ b. omega arith)

bit_and_zero : (a : ℕ) → bit_and a 0 ≡ 0
bit_and_zero a =
    against_zero (λ b. 0) min bit_and bit_and-bitwise (λ b. omega arith) (λ n. 0)
      (bit_and-bitwise 0 0) (λ n. omega arith) a a (omega arith)

-- A tag below four or-ed into a number whose two low bits are clear is added to it.
pub bit_or_tag : (d s : ℕ) → s < 4 → bit_or (d * 4) s ≡ d * 4 + s
bit_or_tag d s h = omega (
  arith,
  bit_or_step (d * 4) s,
  bit_or_step (d * 4 / 2) (s / 2),
  bit_or_zero d,
  ap (λ x. bit_or (d * 4 / 2 / 2) x) zeroed,
  ap (λ x. bit_or x 0) halved,
)
  where
    zeroed : s / 2 / 2 ≡ 0
    zeroed = omega arith

    halved : d * 4 / 2 / 2 ≡ d
    halved = omega arith

-- A mask with the two low bits set keeps the tag.
pub bit_and_tag : (a : ℕ) → bit_and a 3 ≡ a % 4
bit_and_tag a = omega (arith, bit_and_step a 3, bit_and_step (a / 2) 1, bit_and_zero (a / 2 / 2))

-- A mask of `k` ones keeps a number of at most `k` digits.
bit_and_ones : (k m a : ℕ) → m + 1 ≡ 2 ^ k → a < 2 ^ k → bit_and a m ≡ a
bit_and_ones zero m a e h = omega (arith, ap (λ x. bit_and x m) none_left, bit_and-bitwise 0 m)
  where
    none_left : a ≡ 0
    none_left = omega arith
bit_and_ones (suc k) m a e h = omega (
  arith,
  bit_and_step a m,
  pow-suc 2 k,
  bit_and_ones k (m / 2) (a / 2) (omega (arith, pow-suc 2 k)) (omega (arith, pow-suc 2 k)),
)

-- The complement of the tag's mask clears the tag of any number.
pub bit_and_no_tag : (a : ℕ) → bit_and a (2 ^ 64 - 4) ≡ bit_and (a / 4) (2 ^ 62 - 1) * 4
bit_and_no_tag a = omega (
  arith,
  bit_and_step a (2 ^ 64 - 4),
  bit_and_step (a / 2) (2 ^ 63 - 2),
  ap (λ x. bit_and x (2 ^ 62 - 1)) quarter,
)
  where
    quarter : a / 2 / 2 ≡ a / 4
    quarter = omega arith

-- The complement of the tag's mask keeps all but the tag.
pub bit_and_clear : (a : ℕ) → a < 2 ^ 64 → bit_and a (2 ^ 64 - 4) ≡ a / 4 * 4
bit_and_clear a h = omega (
  arith,
  bit_and_step a (2 ^ 64 - 4),
  bit_and_step (a / 2) (2 ^ 63 - 2),
  bit_and_ones 62 (2 ^ 62 - 1) (a / 2 / 2) refl (omega arith),
)
