-- ===== src/Formats/Escape/Tests.antt =====
-- Strings with quotes, a line break, a separator and a byte that is no part of a rune.
use framer.Base.{
  ℕ, ◌≤◌, ◌≡◌, refl, sym, ap, subst, ◌∙◌, Bytes, [], ◌∷◌, ◌++◌, some, Bool, true, false, ◌&&◌, ◌==◌,
  take, All, arith, inl, inr, Bool-cases, codes,
}
use framer.Formats.Escape.{escape_string_append, escape_from, escape_round, escaped, lt}
use framer.Formats.Escape.Literal.{IsUtf8, Literal, Cleaned}
use framer.Formats.Escape.Whole.{escape_string_append-Literal}

-- A decoder that knows one rune.
abbrev decode_line : Bool → ℕ × ℕ
decode_line true = (8232, 3)
decode_line false = (65533, 1)

abbrev is_line : Bytes → Bool
is_line (a ∷ b ∷ c ∷ r) = (a == 226) && (b == 128) && (c == 168)
is_line _ = false

abbrev decode : Bytes → ℕ × ℕ
decode s = decode_line (is_line s)

line_lem : (s : Bytes) → is_line s ≡ true → take 3 s ≡ 226 ∷ 128 ∷ 168 ∷ []
line_lem [] h = cc
line_lem (a ∷ []) h = cc
line_lem (a ∷ b ∷ []) h = cc
line_lem (a ∷ b ∷ c ∷ r) h =
    let e : a ≡ 226 = ground arith in
    let f : b ≡ 128 = ground arith in let g : c ≡ 168 = ground arith in rw (e, f, g) refl

decode-IsUtf8 : IsUtf8 decode
decode-IsUtf8 = record {
  width = λ b r h. width_of (is_line (b ∷ r));
  high = λ b r h. elim (Bool-cases (is_line (b ∷ r))) [
    | inl e ↦ rw e (
        subst (All (λ c. 128 ≤ c)) (sym (line_lem (b ∷ r) e))
          (omega arith, (omega arith, (omega arith, tt))))
    | inr e ↦ rw e (h, tt)
  ];
  separator = λ b r h s. elim (Bool-cases (is_line (b ∷ r))) [
    | inl e ↦ rw e (line_lem (b ∷ r) e)
    | inr e ↦ absurd (elim s [
      | inl q ↦ omega (arith, sym (ap (λ t. (decode_line t).0) e) ∙ q)
      | inr q ↦ omega (arith, sym (ap (λ t. (decode_line t).0) e) ∙ q)
    ])
  ];
}
  where
    width_of : (t : Bool) → 1 ≤ (decode_line t).1
    width_of true = omega arith
    width_of false = omega arith

abbrev text : Bytes
text = 97 ∷ 34 ∷ 10 ∷ 60 ∷ 226 ∷ 128 ∷ 168 ∷ 255 ∷ 98 ∷ []

text_escaped :
    escape_string_append decode (codes "x:") text
    ≡ some (codes "x:\"a\\\"\\n\\u003c\\u2028\\ufffdb\"")
unfolding escape_string_append escape_from escape_round escaped lt
text_escaped = refl

escape_string_append-Literal_example :
    (out : Bytes) × (cleaned : Bytes) × (escape_string_append decode (codes "x:") text
      ≡ some (codes "x:" ++ 34 ∷ out))
    × Literal out cleaned
    × Cleaned decode text cleaned
escape_string_append-Literal_example =
    escape_string_append-Literal decode decode-IsUtf8 (codes "x:") text
