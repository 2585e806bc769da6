-- ===== src/Formats/Escape/Rounds.antt =====
-- The rounds of the loop of `EscapeStringAppend`, case by case.
use framer.Base.{
  ℕ, suc, ◌<◌, ◌≤◌, ◌%◌, ◌≡◌, sym, ap, ◌∙◌, Bytes, [], ◌∷◌, ◌++◌, some, true, false, ◌||◌, ◌==◌,
  ltb, take, drop, codes, arith, ◌>>=◌, append_assoc, append-nil, get_elem?,
}
use framer.Formats.Escape.{hex, escaped, escape_round, escape_from}
use framer.Formats.Escape.Table.{is_plain, lt-plain}
use framer.Formats.Escape.Literal.{is_bad}

kept : (bb p e out : Bytes) → bb ++ (p ++ e) ++ out ≡ bb ++ p ++ (e ++ out)
kept bb p e out = ap (λ l. l ++ out) (sym (append_assoc bb p e)) ∙ append_assoc (bb ++ p) e out

flushed : (bb p e out : Bytes) → bb ++ p ++ e ++ [] ++ out ≡ bb ++ p ++ (e ++ out)
flushed bb p e out = ap (λ l. l ++ out) (append-nil (bb ++ p ++ e)) ∙ append_assoc (bb ++ p) e out

module _ (decode_rune : Bytes → ℕ × ℕ) where
  -- From any output and any pending bytes, the loop on `s` goes on with the pending bytes and `out`.
  unfoldable pub Runs : ℕ → Bytes → Bytes → Type 0
  Runs n s out = (bb p : Bytes) → escape_from decode_rune n bb p s ≡ some (bb ++ p ++ out)

  -- A round that writes the pending bytes and then `e`.
  pub flush :
      (n b : ℕ) (r e left out : Bytes)
      → ((bb p : Bytes)
          → escape_round decode_rune bb p b r
            ≡ some (record { bb = bb ++ p ++ e; pending = []; left = left }))
      → Runs n left out
      → Runs (suc n) (b ∷ r) (e ++ out)
  unfolding escape_from Runs
  flush n b r e left out step rest bb p =
      ap (λ o. o >>= λ q. escape_from decode_rune n q.bb q.pending q.left) (step bb p)
      ∙ rest (bb ++ p ++ e) []
      ∙ ap some (flushed bb p e out)

  -- A round that lets the bytes `e` wait.
  pub keep :
      (n b : ℕ) (r e left out : Bytes)
      → ((bb p : Bytes)
          → escape_round decode_rune bb p b r
            ≡ some (record { bb = bb; pending = p ++ e; left = left }))
      → Runs n left out
      → Runs (suc n) (b ∷ r) (e ++ out)
  unfolding escape_from Runs
  keep n b r e left out step rest bb p =
      ap (λ o. o >>= λ q. escape_from decode_rune n q.bb q.pending q.left) (step bb p)
      ∙ rest bb (p ++ e)
      ∙ ap some (kept bb p e out)

  pub ascii_plain :
      (b : ℕ) (r bb p : Bytes)
      → b < 128
      → is_plain b ≡ true
      → escape_round decode_rune bb p b r
        ≡ some (record { bb = bb; pending = p ++ b ∷ []; left = r })
  unfolding escape_round
  ascii_plain b r bb p h k = let l : ltb b 128 ≡ true = ground arith in rw (l, lt-plain b h, k)

  pub ascii_escaped :
      (b : ℕ) (r bb p e : Bytes)
      → b < 128
      → is_plain b ≡ false
      → escaped b ≡ some e
      → escape_round decode_rune bb p b r
        ≡ some (record { bb = bb ++ p ++ e; pending = []; left = r })
  unfolding escape_round
  ascii_escaped b r bb p e h k d =
      let l : ltb b 128 ≡ true = ground arith in rw (l, lt-plain b h, k, d)

  pub rune_bad :
      (b : ℕ) (r bb p : Bytes)
      → 128 ≤ b
      → is_bad decode_rune (b ∷ r) ≡ true
      → escape_round decode_rune bb p b r
        ≡ some (record {
          bb = bb ++ p ++ codes "\\ufffd";
          pending = [];
          left = drop (decode_rune (b ∷ r)).1 (b ∷ r);
        })
  unfolding escape_round
  rune_bad b r bb p h k = let l : ltb b 128 ≡ false = ground arith in rw (l, k)

  pub rune_separator :
      (b : ℕ) (r bb p : Bytes) (h : ℕ)
      → 128 ≤ b
      → is_bad decode_rune (b ∷ r) ≡ false
      → (((decode_rune (b ∷ r)).0 == 8232) || ((decode_rune (b ∷ r)).0 == 8233)) ≡ true
      → get_elem? hex ((decode_rune (b ∷ r)).0 % 16) ≡ some h
      → escape_round decode_rune bb p b r
        ≡ some (record {
          bb = bb ++ p ++ (codes "\\u202" ++ h ∷ []);
          pending = [];
          left = drop (decode_rune (b ∷ r)).1 (b ∷ r);
        })
  unfolding escape_round
  rune_separator b r bb p h high k q d =
      let l : ltb b 128 ≡ false = ground arith in
      rw (l, k, q, d, append_assoc (bb ++ p) (codes "\\u202") (h ∷ []))

  pub rune_kept :
      (b : ℕ) (r bb p : Bytes)
      → 128 ≤ b
      → is_bad decode_rune (b ∷ r) ≡ false
      → (((decode_rune (b ∷ r)).0 == 8232) || ((decode_rune (b ∷ r)).0 == 8233)) ≡ false
      → escape_round decode_rune bb p b r
        ≡ some (record {
          bb = bb;
          pending = p ++ take (decode_rune (b ∷ r)).1 (b ∷ r);
          left = drop (decode_rune (b ∷ r)).1 (b ∷ r);
        })
  unfolding escape_round
  rune_kept b r bb p high k q = let l : ltb b 128 ≡ false = ground arith in rw (l, k, q)
