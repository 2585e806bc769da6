-- ===== src/Base/Bits.antt =====
-- Laws of `bit_and` and `bit_or` at variables, and what they come to for the masks and the shifts of
-- the program.
use Prim.Native.Nat.{
  ℕ, zero, suc, ◌+◌, ◌*◌, ◌/◌, ◌%◌, ◌≤◌, ◌<◌, min, max, bit_and, bit_or, digits, bit_and-bitwise,
  bit_or-bitwise,
}
use mathlib.Core.Path.{◌≡◌, refl, ap, ap₂, sym, ◌∙◌}
use native.Mathlib.Omega.{arith}

-- An operation digit by digit: `ends` is its value once the first number has run out, and `pair` the
-- operation on two digits.
module _ (ends : ℕ → ℕ) (pair : ℕ → ℕ → ℕ) where
  run_out : (fuel b : ℕ) → digits ends pair fuel 0 b ≡ ends b
  run_out zero b = refl
  run_out (suc fuel) b = refl

  -- The count of digits to go does not matter, once it is large enough.
  digits_steady : (m n x y : ℕ) → x ≤ m → x ≤ n → digits ends pair m x y ≡ digits ends pair n x y
  digits_steady m n zero y p q = run_out m y ∙ sym (run_out n y)
  digits_steady zero n (suc x) y p q = absurd (omega arith)
  digits_steady (suc m) zero (suc x) y p q = absurd (omega arith)
  digits_steady (suc m) (suc n) (suc x) y p q =
      let h : suc x / 2 ≤ m = omega arith in
      let k : suc x / 2 ≤ n = omega arith in
      ap (λ t. t * 2 + pair (suc x % 2) (y % 2)) (digits_steady m n (suc x / 2) (y / 2) h k)

  module _ (op : ℕ → ℕ → ℕ) (meaning : (x y : ℕ) → op x y ≡ digits ends pair x x y)
      (last : (y : ℕ) → ends y ≡ ends (y / 2) * 2 + pair 0 (y % 2)) where
    -- The lowest digit of the operation, and the rest of it.
    lowest : (x y : ℕ) → op x y ≡ op (x / 2) (y / 2) * 2 + pair (x % 2) (y % 2)
    lowest zero y =
        meaning 0 y ∙ last y ∙ ap (λ t. t * 2 + pair 0 (y % 2)) (sym (meaning 0 (y / 2)))
    lowest (suc x) y =
        let h : suc x / 2 ≤ x = omega arith in
        let k : suc x / 2 ≤ suc x / 2 = omega arith in
        meaning (suc x) y
        ∙ ap (λ t. t * 2 + pair (suc x % 2) (y % 2))
            (digits_steady x (suc x / 2) (suc x / 2) (y / 2) h k
              ∙ sym (meaning (suc x / 2) (y / 2)))

and_lowest : (x y : ℕ) → bit_and x y ≡ bit_and (x / 2) (y / 2) * 2 + min (x % 2) (y % 2)
and_lowest = lowest (λ _. 0) min bit_and bit_and-bitwise (λ y. omega arith)

or_lowest : (x y : ℕ) → bit_or x y ≡ bit_or (x / 2) (y / 2) * 2 + max (x % 2) (y % 2)
or_lowest = lowest (λ y. y) max bit_or bit_or-bitwise (λ y. omega arith)

-- The empty mask, by halving; `bound` bounds the number of digits.
mask_none : (bound x : ℕ) → x ≤ bound → bit_and x 0 ≡ 0
mask_none bound zero h = refl
mask_none zero (suc x) h = absurd (omega arith)
mask_none (suc bound) (suc x) h =
    omega (arith, and_lowest (suc x) 0, mask_none bound (suc x / 2) (omega arith))

or_none : (bound x : ℕ) → x ≤ bound → bit_or x 0 ≡ x
or_none bound zero h = refl
or_none zero (suc x) h = absurd (omega arith)
or_none (suc bound) (suc x) h =
    omega (arith, or_lowest (suc x) 0, or_none bound (suc x / 2) (omega arith))

-- The mask of four ones.
pub bit_and_fifteen : (x : ℕ) → bit_and x 15 ≡ x % 16
bit_and_fifteen x = omega (
  arith,
  and_lowest x 15,
  and_lowest (x / 2) 7,
  and_lowest (x / 2 / 2) 3,
  and_lowest (x / 2 / 2 / 2) 1,
  mask_none (x / 2 / 2 / 2 / 2) (x / 2 / 2 / 2 / 2) (omega arith),
)

-- One more digit below a disjoint or.
or_digit : (x b c y : ℕ) → y ≡ x * 2 → b / 2 ≡ c → bit_or x c ≡ x + c → bit_or y b ≡ y + b
or_digit x b c y p q h = omega (arith, or_lowest y b, ap (λ t. bit_or t (b / 2)) half, moved)
  where
    half : y / 2 ≡ x
    half = omega arith

    moved : bit_or x (b / 2) ≡ x + c
    moved = rw q h

or_nibble : (x b : ℕ) → b < 16 → bit_or (x * 16) b ≡ x * 16 + b
or_nibble x b h = or_digit (x * 8) b (b / 2) (x * 16) (omega arith) refl (
    or_digit (x * 4) (b / 2) (b / 4) (x * 8) (omega arith) (omega arith) (
      or_digit (x * 2) (b / 4) (b / 8) (x * 4) (omega arith) (omega arith) (
        or_digit x (b / 8) 0 (x * 2) (omega arith) (omega arith)
          (omega (arith, or_none x x (omega arith))))))

-- `x << 8 | b` for a byte `b`.
pub or_byte : (x b : ℕ) → b < 256 → bit_or (x * 256) b ≡ x * 256 + b
or_byte x b h = or_digit (x * 128) b (b / 2) (x * 256) (omega arith) refl (
    or_digit (x * 64) (b / 2) (b / 4) (x * 128) (omega arith) (omega arith) (
      or_digit (x * 32) (b / 4) (b / 8) (x * 64) (omega arith) (omega arith) (
        or_digit (x * 16) (b / 8) (b / 16) (x * 32) (omega arith) (omega arith)
          (or_nibble x (b / 16) (omega arith)))))

or_double : (x y x' y' : ℕ) → x' ≡ x * 2 → y' ≡ y * 2 → bit_or x' y' ≡ bit_or x y * 2
or_double x y x' y' p q = omega (arith, or_lowest x' y', ap₂ bit_or half_x half_y)
  where
    half_x : x' / 2 ≡ x
    half_x = omega arith

    half_y : y' / 2 ≡ y
    half_y = omega arith

or_sixteen : (x y : ℕ) → bit_or (x * 16) (y * 16) ≡ bit_or x y * 16
or_sixteen x y = omega (
  arith,
  or_double (x * 8) (y * 8) (x * 16) (y * 16) (omega arith) (omega arith),
  or_double (x * 4) (y * 4) (x * 8) (y * 8) (omega arith) (omega arith),
  or_double (x * 2) (y * 2) (x * 4) (y * 4) (omega arith) (omega arith),
  or_double x y (x * 2) (y * 2) refl refl,
)

-- `x << 16 | b << 8` for a byte `b`.
pub or_high_byte : (x b : ℕ) → b < 256 → bit_or (x * 65536) (b * 256) ≡ x * 65536 + b * 256
or_high_byte x b h = omega (
  arith,
  ap₂ bit_or left right,
  or_sixteen (x * 256 * 16) (b * 16),
  or_sixteen (x * 256) b,
  or_byte x b h,
)
  where
    left : x * 65536 ≡ x * 256 * 16 * 16
    left = omega arith

    right : b * 256 ≡ b * 16 * 16
    right = omega arith
