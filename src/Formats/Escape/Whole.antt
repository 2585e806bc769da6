-- ===== src/Formats/Escape/Whole.antt =====
-- `EscapeStringAppend` on a whole string.
use framer.Base.{
  ℕ, zero, suc, ◌<◌, ◌≤◌, ◌+◌, ◌*◌, ◌%◌, ◌≡◌, refl, sym, ap, ◌∙◌, subst, Bytes, [], ◌∷◌, ◌++◌, some,
  true, false, ◌&&◌, ◌||◌, ◌==◌, ltb, ltb→lt, length, take, drop, codes, arith, inl, inr, ◌⊎◌,
  Bool-cases, length-drop, append_assoc, append-nil, get_elem?,
}
use framer.Formats.Escape.{hex, rune_error, escape_from, escape_string_append}
use framer.Formats.Escape.Table.{is_plain, digit, hex-digit}
use framer.Formats.Escape.Literal.{
  utf8, Literal, IsUtf8, is_bad, Cleaned, high-Literal, escaped-Literal, plain_byte,
}
use framer.Formats.Escape.Rounds.{
  Runs, flush, keep, ascii_plain, ascii_escaped, rune_bad, rune_separator, rune_kept,
}

either : (c : ℕ) → ((c == 8232) || (c == 8233)) ≡ true → (c ≡ 8232) ⊎ (c ≡ 8233)
either c h = grind arith

separator_test : (c d : ℕ) → c ≡ 8224 + d → (d ≡ 8) ⊎ (d ≡ 9) → ((c == 8232) || (c == 8233)) ≡ true
separator_test c d h (inl e) = ground arith
separator_test c d h (inr e) = ground arith

one_byte : (c m : ℕ) → ((c == rune_error) && (m == 1)) ≡ true → m ≡ 1
one_byte c m h = ground arith

module _ (decode_rune : Bytes → ℕ × ℕ) where
  -- What the loop writes on `s` after the pending bytes, and the text that it stands for.
  record Written (n : ℕ) (s : Bytes) : Type 0 where
    out : Bytes
    text : Bytes
    runs : Runs decode_rune n s out
    literal : Literal out text
    cleaned : Cleaned decode_rune s text

  written_ascii : (n b : ℕ) (r : Bytes) → b < 128 → Written n r → Written (suc n) (b ∷ r)
  written_ascii n b r h w = elim (Bool-cases (is_plain b)) [
    | inl k ↦ record {
      out = b ∷ w.out;
      text = b ∷ w.text;
      runs =
          keep decode_rune n b r (b ∷ []) r w.out (λ bb p. ascii_plain decode_rune b r bb p h k)
            w.runs;
      literal = Literal.plain b (plain_byte b k).0 (plain_byte b k).1 (plain_byte b k).2 w.literal;
      cleaned = Cleaned.ascii b h w.cleaned;
    }
    | inr k ↦
        let (e, d, l) = escaped-Literal b h k w.literal in
        record {
          out = e ++ w.out;
          text = b ∷ w.text;
          runs =
              flush decode_rune n b r e r w.out (λ bb p. ascii_escaped decode_rune b r bb p e h k d)
                w.runs;
          literal = l;
          cleaned = Cleaned.ascii b h w.cleaned;
        }
  ]

  written_end : (n : ℕ) → Written (suc n) []
  unfolding Runs escape_from
  written_end n = record {
    out = 34 ∷ [];
    text = [];
    runs = λ bb p. refl;
    literal = Literal.closed;
    cleaned = Cleaned.done;
  }

  module _ (H : IsUtf8 decode_rune) where
    written_separator :
        (n b d : ℕ) (r : Bytes)
        → 128 ≤ b
        → is_bad decode_rune (b ∷ r) ≡ false
        → (decode_rune (b ∷ r)).0 ≡ 8224 + d
        → (d ≡ 8) ⊎ (d ≡ 9)
        → Written n (drop (decode_rune (b ∷ r)).1 (b ∷ r))
        → Written (suc n) (b ∷ r)
    written_separator n b d r high k is_c which w =
        let c = (decode_rune (b ∷ r)).0 in
        let s = take (decode_rune (b ∷ r)).1 (b ∷ r) in
        let tested : ((c == 8232) || (c == 8233)) ≡ true = separator_test c d is_c which in
        let named : (c ≡ 8232) ⊎ (c ≡ 8233) = either c tested in
        let small : d < 16 = grind arith in
        let low : c % 16 ≡ d = omega arith in
        let value : 2 * 4096 + 0 * 256 + 2 * 16 + d ≡ c = omega arith in
        record {
          out = codes "\\u202" ++ digit d ∷ w.out;
          text = s ++ w.text;
          runs =
              flush decode_rune n b r (codes "\\u202" ++ digit d ∷ [])
                (drop (decode_rune (b ∷ r)).1 (b ∷ r)) w.out
                (λ bb p.
                  rune_separator decode_rune b r bb p (digit d) high k tested
                    (ap (get_elem? hex) low ∙ hex-digit d small))
                w.runs;
          literal =
              subst (λ u. Literal (codes "\\u202" ++ digit d ∷ w.out) (u ++ w.text))
                (ap utf8 value ∙ sym (H.separator b r high named))
                (Literal.unicode 2 0 2 d (omega arith) (omega arith) (omega arith) small w.literal);
          cleaned = Cleaned.rune b high k w.cleaned;
        }

    written_rune :
        (n b : ℕ) (r : Bytes)
        → 128 ≤ b
        → is_bad decode_rune (b ∷ r) ≡ false
        → Written n (drop (decode_rune (b ∷ r)).1 (b ∷ r))
        → Written (suc n) (b ∷ r)
    written_rune n b r high k w =
        elim (Bool-cases (((decode_rune (b ∷ r)).0 == 8232) || ((decode_rune (b ∷ r)).0 == 8233))) [
          | inl q ↦ (elim (either (decode_rune (b ∷ r)).0 q) [
            | inl e ↦ written_separator n b 8 r high k e (inl refl) w
            | inr e ↦ written_separator n b 9 r high k e (inr refl) w
          ])
          | inr q ↦ record {
            out = take (decode_rune (b ∷ r)).1 (b ∷ r) ++ w.out;
            text = take (decode_rune (b ∷ r)).1 (b ∷ r) ++ w.text;
            runs =
                keep decode_rune n b r (take (decode_rune (b ∷ r)).1 (b ∷ r))
                  (drop (decode_rune (b ∷ r)).1 (b ∷ r)) w.out
                  (λ bb p. rune_kept decode_rune b r bb p high k q) w.runs;
            literal =
                high-Literal (take (decode_rune (b ∷ r)).1 (b ∷ r)) (H.high b r high) w.literal;
            cleaned = Cleaned.rune b high k w.cleaned;
          }
        ]

    written_bad :
        (n b : ℕ) (r : Bytes)
        → 128 ≤ b
        → is_bad decode_rune (b ∷ r) ≡ true
        → Written n r
        → Written (suc n) (b ∷ r)
    written_bad n b r high k w = record {
      out = codes "\\ufffd" ++ w.out;
      text = utf8 rune_error ++ w.text;
      runs =
          flush decode_rune n b r (codes "\\ufffd") r w.out
            (λ bb p.
              rune_bad decode_rune b r bb p high k
              ∙ ap
                  (λ m. some (record {
                    bb = bb ++ p ++ codes "\\ufffd";
                    pending = [];
                    left = drop m (b ∷ r);
                  }))
                  (one_byte _ _ k))
            w.runs;
      literal =
          Literal.unicode 15 15 15 13 (omega arith) (omega arith) (omega arith) (omega arith)
            w.literal;
      cleaned = Cleaned.bad b high k w.cleaned;
    }

    -- With fuel beyond the length of what is left, the loop writes a literal.
    written : (n : ℕ) (s : Bytes) → length s < n → Written n s
    written zero s h = absurd (omega arith)
    written (suc n) [] h = written_end n
    written (suc n) (b ∷ r) h =
        let m = (decode_rune (b ∷ r)).1 in
        elim (Bool-cases (ltb b 128)) [
          | inl l ↦ written_ascii n b r (ltb→lt b 128 l) (written n r (omega arith))
          | inr l ↦
              let high : 128 ≤ b = ground arith in
              elim (Bool-cases (is_bad decode_rune (b ∷ r))) [
                | inl k ↦ written_bad n b r high k (written n r (omega arith))
                | inr k ↦ written_rune n b r high k (
                    written n (drop m (b ∷ r))
                      (omega (arith, length-drop m (b ∷ r), H.width b r high)))
              ]
        ]

  -- What is written of the bytes does not depend on what it is appended to.
  pub escaped_alike :
      (H : IsUtf8 decode_rune) (s : Bytes)
      → (out : Bytes) × (text : Bytes) × ((bb : Bytes)
          → escape_string_append decode_rune bb s ≡ some (bb ++ 34 ∷ out))
        × Literal out text
        × Cleaned decode_rune s text
  unfolding escape_string_append Runs
  escaped_alike H s =
      let w = written H (suc (length s)) s (omega arith) in
      (
        w.out,
        w.text,
        λ bb.
            w.runs (bb ++ 34 ∷ []) []
            ∙ ap some (
                ap (λ l. l ++ w.out) (append-nil (bb ++ 34 ∷ []))
                ∙ append_assoc bb (34 ∷ []) w.out),
        w.literal,
        w.cleaned,
      )

  -- For any bytes, `EscapeStringAppend` returns what it is to append to, an opening quote, and a
  -- JSON string literal with its closing quote; the literal stands for the bytes, with each that is
  -- no part of a rune replaced by U+FFFD.
  pub escape_string_append-Literal :
      (H : IsUtf8 decode_rune) (bb s : Bytes)
      → (out : Bytes) × (text : Bytes) × (escape_string_append decode_rune bb s
          ≡ some (bb ++ 34 ∷ out))
        × Literal out text
        × Cleaned decode_rune s text
  escape_string_append-Literal H bb s =
      let (out, text, appended, literal, cleaned) = escaped_alike H s in
      (out, text, appended bb, literal, cleaned)
