-- ===== src/Prelude/Bits.antt =====
-- The bits of a flag word that the Go code tests with `&`.
use Prim.Native.Nat.{ℕ, zero, suc, ◌*◌, ◌/◌, ◌%◌, ◌≤◌, min, bit_and, digits, bit_and-bitwise}
use mathlib.Core.Path.{◌≡◌, refl}
use native.Mathlib.Omega.{arith}

-- A mask of which it is known what it leaves of every number, and that it leaves nothing of 0.
record Mask (mask : ℕ) (left : ℕ → ℕ) : Type 0 where
  on_zero : left 0 ≡ 0
  on_digits : (fuel word : ℕ) → word ≤ fuel → digits (λ _. 0) min fuel word mask ≡ left word

empty : Mask 0 (λ word. 0)
empty = record { on_zero = refl; on_digits = no_digit }
  where
    no_digit : (fuel word : ℕ) → word ≤ fuel → digits (λ _. 0) min fuel word 0 ≡ 0
    no_digit zero word h = refl
    no_digit (suc fuel) zero h = refl
    no_digit (suc fuel) (suc word) h = omega (arith, no_digit fuel (suc word / 2) (omega arith))

-- One digit more at the lower end, a 0.
even :
    (mask : ℕ) {left : ℕ → ℕ}
    → mask % 2 ≡ 0
    → Mask (mask / 2) left
    → Mask mask (λ word. left (word / 2) * 2)
even mask {left} e m = record { on_zero = omega (arith, m.on_zero); on_digits = one_more }
  where
    one_more :
        (fuel word : ℕ) → word ≤ fuel → digits (λ _. 0) min fuel word mask ≡ left (word / 2) * 2
    one_more zero zero h = omega (arith, m.on_zero)
    one_more zero (suc word) h = absurd (omega arith)
    one_more (suc fuel) zero h = omega (arith, m.on_zero)
    one_more (suc fuel) (suc word) h = omega (arith, m.on_digits fuel (suc word / 2) (omega arith))

-- The mask 1.
lowest : Mask 1 (λ word. word % 2)
lowest = record { on_zero = refl; on_digits = last_digit }
  where
    last_digit : (fuel word : ℕ) → word ≤ fuel → digits (λ _. 0) min fuel word 1 ≡ word % 2
    last_digit zero zero h = refl
    last_digit zero (suc word) h = absurd (omega arith)
    last_digit (suc fuel) zero h = refl
    last_digit (suc fuel) (suc word) h =
        omega (arith, empty.on_digits fuel (suc word / 2) (omega arith))

bit_and-Mask :
    (mask : ℕ) {left : ℕ → ℕ} → Mask mask left → (word : ℕ) → bit_and word mask ≡ left word
bit_and-Mask mask m word =
    omega (arith, bit_and-bitwise word mask, m.on_digits word word (omega arith))

pub bit_and_1 : (word : ℕ) → bit_and word 1 ≡ word % 2
bit_and_1 word = omega (arith, bit_and-Mask 1 lowest word)

pub bit_and_2 : (word : ℕ) → bit_and word 2 ≡ word / 2 % 2 * 2
bit_and_2 word = omega (arith, bit_and-Mask 2 (even 2 refl lowest) word)

pub bit_and_4 : (word : ℕ) → bit_and word 4 ≡ word / 4 % 2 * 4
bit_and_4 word = omega (arith, bit_and-Mask 4 (even 4 refl (even 2 refl lowest)) word)

pub bit_and_256 : (word : ℕ) → bit_and word 256 ≡ word / 256 % 2 * 256
bit_and_256 word = omega (
  arith,
  bit_and-Mask 256
      (even 256 refl (
        even 128 refl (
          even 64 refl
            (even 32 refl (even 16 refl (even 8 refl (even 4 refl (even 2 refl lowest))))))))
      word,
)
