-- ===== src/Formats/BinaryIo/Decimal.antt =====
-- The decimal length: what `strconv.AppendUint` writes, `fillSize` reads back.
use framer.Base.{
  ℕ, zero, suc, ◌+◌, ◌-◌, ◌*◌, ◌/◌, ◌%◌, ◌<◌, ◌≤◌, ◌≡◌, refl, ap, ◌∙◌, sym, subst, Bytes, [], ◌∷◌,
  ◌++◌, true, false, ltb, ltb→lt, length, drop, All, All-append, arith, inl, inr, ◌⊎◌, Bool-cases,
}
use framer.Formats.BinaryIo.{SizeEnd, i64, is_digit, fill_size, decimal_digits, decimal}

abbrev pub IsDigit : ℕ → Type 0
IsDigit b = (48 ≤ b) × (b ≤ 57)

-- The number that digits make up behind those that make up `acc`.
abbrev pub value : ℕ → Bytes → ℕ
value acc [] = acc
value acc (b ∷ ds) = value (i64 (acc * 10 + (b - 48))) ds

value-append :
    (acc : ℕ) (xs : Bytes) (d : ℕ) → value acc (xs ++ d ∷ []) ≡ i64 (value acc xs * 10 + (d - 48))
value-append acc [] d = refl
value-append acc (x ∷ xs) d = value-append (i64 (acc * 10 + (x - 48))) xs d

-- The two cases of a number: one digit, or more.
pub one_digit : (k n : ℕ) → ltb n 10 ≡ true → decimal_digits (suc k) n ≡ (48 + n) ∷ []
unfolding decimal_digits
one_digit k n e = rw (e, decimal_digits) refl

pub more_digits :
    (k n : ℕ)
    → ltb n 10 ≡ false
    → decimal_digits (suc k) n ≡ decimal_digits k (n / 10) ++ (48 + n % 10) ∷ []
unfolding decimal_digits
more_digits k n e = rw (e, decimal_digits) refl

digits_of :
    (k n : ℕ)
    → n < k
    → n < 18_446_744_073_709_551_616
    → All IsDigit (decimal_digits k n) × (value 0 (decimal_digits k n) ≡ n)
unfolding decimal_digits
digits_of zero n h s = absurd (omega arith)
digits_of (suc k) n h s = elim (Bool-cases (ltb n 10)) [
  | inl e ↦
      let l : n < 10 = ltb→lt n 10 e in
      rw (one_digit k n e) (((omega arith, omega arith), tt), omega arith)
  | inr e ↦
      let l : 10 ≤ n = ground arith in
      let (ds, v) = digits_of k (n / 10) (omega arith) (omega arith) in
      rw (more_digits k n e) (
        All-append IsDigit (decimal_digits k (n / 10)) ((48 + n % 10) ∷ []) ds
            ((omega arith, omega arith), tt),
        value-append 0 (decimal_digits k (n / 10)) (48 + n % 10)
            ∙ ap (λ x. i64 (x * 10 + (48 + n % 10 - 48))) v
            ∙ omega arith,
      )
]

-- The digits of a length, and that they make it up.
pub decimal-value :
    (n : ℕ) → n < 18_446_744_073_709_551_616 → All IsDigit (decimal n) × (value 0 (decimal n) ≡ n)
decimal-value n s = digits_of (suc n) n (omega arith) s

fill_digit :
    (acc b : ℕ) (u : Bytes) {a n : ℕ} {e : SizeEnd}
    → IsDigit b
    → fill_size (i64 (acc * 10 + (b - 48))) u ≡ (a, n, e)
    → fill_size acc (b ∷ u) ≡ (a, suc n, e)
unfolding fill_size
fill_digit acc b u d q =
    let (low, high) = d in let t : is_digit b ≡ true = ground arith in rw (t, q) refl

pub fill_nothing : (acc : ℕ) → fill_size acc [] ≡ (acc, 0, SizeEnd.unexpected_eof)
unfolding fill_size
fill_nothing acc = refl

fill_newline : (acc : ℕ) (u : Bytes) → fill_size acc (10 ∷ u) ≡ (acc, 1, SizeEnd.complete)
unfolding fill_size
fill_newline acc u = refl

-- `fillSize` on a piece of a stream that starts with digits and a line break: either the piece lies
-- within the digits, or it has all of them.
pub fill_size-digits :
    (acc : ℕ) (u z ds rest : Bytes)
    → All IsDigit ds
    → u ++ z ≡ ds ++ 10 ∷ rest
    → ((ds' : Bytes) × (z ≡ ds' ++ 10 ∷ rest)
        × All IsDigit ds'
        × (value (value acc u) ds' ≡ value acc ds)
        × (fill_size acc u ≡ (value acc u, length u, SizeEnd.unexpected_eof)))
      ⊎ ((u' : Bytes) × (u' ++ z ≡ rest)
          × (fill_size acc u ≡ (value acc ds, suc (length ds), SizeEnd.complete))
          × (drop (suc (length ds)) u ≡ u'))
fill_size-digits acc [] z ds rest d e = inl (ds, e, d, refl, fill_nothing acc)
fill_size-digits acc (b ∷ u) z [] rest d e =
    let q : b ≡ 10 = cc in
    let t : u ++ z ≡ rest = cc in
    inr (u, t, ap (λ x. fill_size acc (x ∷ u)) q ∙ fill_newline acc u, refl)
fill_size-digits acc (b ∷ u) z (x ∷ ds) rest d e =
    let q : x ≡ b = cc in
    let t : u ++ z ≡ ds ++ 10 ∷ rest = cc in
    let a = i64 (acc * 10 + (b - 48)) in
    let same : i64 (acc * 10 + (x - 48)) ≡ a = ap (λ y. i64 (acc * 10 + (y - 48))) q in
    let digit : IsDigit b = subst IsDigit q d.0 in
    elim (fill_size-digits a u z ds rest d.1 t) [
      | inl (ds', split, digits, total, run) ↦ inl (
        ds',
        split,
        digits,
        total ∙ ap (λ y. value y ds) (sym same),
        fill_digit acc b u digit run,
      )
      | inr (u', joined, run, left) ↦ inr (
        u',
        joined,
        fill_digit acc b u digit run
            ∙ ap (λ y. (value y ds, suc (suc (length ds)), SizeEnd.complete)) (sym same),
        left,
      )
    ]
