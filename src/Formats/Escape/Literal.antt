-- ===== src/Formats/Escape/Literal.antt =====
-- What `EscapeStringAppend` writes, as a JSON string literal (RFC 8259, section 7), and the text that
-- the literal stands for. Of `utf8.DecodeRune` only the documented behaviour is used.
use framer.Base.{
  ℕ, ◌<◌, ◌≤◌, ◌+◌, ◌*◌, ◌/◌, ◌%◌, ◌≡◌, ◌≢◌, refl, ap, ◌∙◌, subst, Bytes, [], ◌∷◌, ◌++◌, some, Bool,
  true, false, ◌&&◌, if◌then◌else◌, ◌==◌, ==_iff, ltb, take, drop, codes, All, arith, inl, inr, ◌⊎◌,
  Bool-cases,
}
use framer.Formats.Escape.{rune_error, escaped}
use framer.Formats.Escape.Table.{is_plain, digit, hex-digit}

-- The UTF-8 encoding of a code point below 2^16.
abbrev pub utf8 : ℕ → Bytes
utf8 c =
    if ltb c 128
    then c ∷ []
    else if ltb c 2048
    then (192 + c / 64) ∷ (128 + c % 64) ∷ []
    else (224 + c / 4096) ∷ (128 + c / 64 % 64) ∷ (128 + c % 64) ∷ []

-- `Literal out text`: what follows an opening quote, up to the closing one, and the text it stands for.
pub data Literal : Bytes → Bytes → Type 0 where
  closed : Literal (34 ∷ []) []
  plain : (b : ℕ) {r t : Bytes} → 32 ≤ b → b ≢ 34 → b ≢ 92 → Literal r t → Literal (b ∷ r) (b ∷ t)
  quote : {r t : Bytes} → Literal r t → Literal (92 ∷ 34 ∷ r) (34 ∷ t)
  backslash : {r t : Bytes} → Literal r t → Literal (92 ∷ 92 ∷ r) (92 ∷ t)
  newline : {r t : Bytes} → Literal r t → Literal (92 ∷ 110 ∷ r) (10 ∷ t)
  carriage_return : {r t : Bytes} → Literal r t → Literal (92 ∷ 114 ∷ r) (13 ∷ t)
  unicode :
      (a b c d : ℕ) {r t : Bytes}
      → a < 16
      → b < 16
      → c < 16
      → d < 16
      → Literal r t
      → Literal
          (92 ∷ 117 ∷ digit a ∷ digit b ∷ digit c ∷ digit d ∷ r)
          (utf8 (a * 4096 + b * 256 + c * 16 + d) ++ t)

-- What is documented of `utf8.DecodeRune` on bytes from a first one that is not ASCII: the width is
-- positive and within the input, the bytes of the rune are not ASCII, and the two separators are
-- decoded from their encodings.
pub record IsUtf8 (decode_rune : Bytes → ℕ × ℕ) : Type 0 where
  pub width : (b : ℕ) (r : Bytes) → 128 ≤ b → 1 ≤ (decode_rune (b ∷ r)).1
  pub high :
      (b : ℕ) (r : Bytes) → 128 ≤ b → All (λ c. 128 ≤ c) (take (decode_rune (b ∷ r)).1 (b ∷ r))
  pub separator :
      (b : ℕ) (r : Bytes)
      → 128 ≤ b
      → ((decode_rune (b ∷ r)).0 ≡ 8232) ⊎ ((decode_rune (b ∷ r)).0 ≡ 8233)
      → take (decode_rune (b ∷ r)).1 (b ∷ r) ≡ utf8 (decode_rune (b ∷ r)).0

module _ (decode_rune : Bytes → ℕ × ℕ) where
  -- Whether what starts with a byte is no rune.
  abbrev pub is_bad : Bytes → Bool
  is_bad s = ((decode_rune s).0 == rune_error) && ((decode_rune s).1 == 1)

  -- `Cleaned s t`: `t` is `s` with each byte that is no part of a rune replaced by U+FFFD.
  pub data Cleaned : Bytes → Bytes → Type 0 where
    done : Cleaned [] []
    ascii : (b : ℕ) {r t : Bytes} → b < 128 → Cleaned r t → Cleaned (b ∷ r) (b ∷ t)
    bad :
        (b : ℕ) {r t : Bytes}
        → 128 ≤ b
        → is_bad (b ∷ r) ≡ true
        → Cleaned r t
        → Cleaned (b ∷ r) (utf8 rune_error ++ t)
    rune :
        (b : ℕ) {r t : Bytes}
        → 128 ≤ b
        → is_bad (b ∷ r) ≡ false
        → Cleaned (drop (decode_rune (b ∷ r)).1 (b ∷ r)) t
        → Cleaned (b ∷ r) (take (decode_rune (b ∷ r)).1 (b ∷ r) ++ t)

-- Bytes that are not ASCII stand for themselves.
pub high-Literal :
    (xs : Bytes) {r t : Bytes} → All (λ c. 128 ≤ c) xs → Literal r t → Literal (xs ++ r) (xs ++ t)
high-Literal [] h l = l
high-Literal (x ∷ xs) h l =
    let low : 128 ≤ x = h.0 in
    Literal.plain x (omega arith) (λ e. omega arith) (λ e. omega arith) (high-Literal xs h.1 l)

ascii_unit : (b : ℕ) → b < 128 → utf8 (0 * 4096 + 0 * 256 + b / 16 * 16 + b % 16) ≡ b ∷ []
ascii_unit b h =
    let e : 0 * 4096 + 0 * 256 + b / 16 * 16 + b % 16 ≡ b = omega arith in ap utf8 e ∙ ground arith

-- An escape of an ASCII byte stands for that byte.
pub escaped-Literal :
    (b : ℕ) {r t : Bytes}
    → b < 128
    → is_plain b ≡ false
    → Literal r t
    → (e : Bytes) × (escaped b ≡ some e) × Literal (e ++ r) (b ∷ t)
unfolding escaped
escaped-Literal b {r = r} {t = t} h p l = elim (Bool-cases (b == 92)) [
  | inl e ↦ let q : b ≡ 92 = (==_iff b 92).0 e in rw q (92 ∷ 92 ∷ [], refl, Literal.backslash l)
  | inr n92 ↦ elim (Bool-cases (b == 34)) [
    | inl e ↦ let q : b ≡ 34 = (==_iff b 34).0 e in rw q (92 ∷ 34 ∷ [], refl, Literal.quote l)
    | inr n34 ↦ elim (Bool-cases (b == 10)) [
      | inl e ↦ let q : b ≡ 10 = (==_iff b 10).0 e in rw q (92 ∷ 110 ∷ [], refl, Literal.newline l)
      | inr n10 ↦ elim (Bool-cases (b == 13)) [
        | inl e ↦
            let q : b ≡ 13 = (==_iff b 13).0 e in
            rw q (92 ∷ 114 ∷ [], refl, Literal.carriage_return l)
        | inr n13 ↦ (
          codes "\\u00" ++ digit (b / 16) ∷ digit (b % 16) ∷ [],
          rw (
            n92,
            n34,
            n10,
            n13,
            hex-digit (b / 16) (omega arith),
            hex-digit (b % 16) (omega arith),
          ),
          subst (λ u. Literal (codes "\\u00" ++ digit (b / 16) ∷ digit (b % 16) ∷ r) (u ++ t))
              (ascii_unit b h)
              (Literal.unicode 0 0 (b / 16) (b % 16) (omega arith) (omega arith) (omega arith)
                (omega arith) l),
        )
      ]
    ]
  ]
]

-- A byte that the table passes is a plain one of a literal.
pub plain_byte : (b : ℕ) → is_plain b ≡ true → (32 ≤ b) × (b ≢ 34) × (b ≢ 92)
plain_byte b h = (ground arith, ground arith, ground arith)
