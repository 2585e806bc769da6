-- ===== src/Formats/Escape.antt =====
-- formats/internal/json/escape.go: `EscapeStringAppend`. The bytes `s[start:i]` that are not written
-- yet are `pending`, and `s[i:]` is what is left; appending `s[start:i]` where `start < i` is appending
-- `pending`, which is empty otherwise. `none` is an index out of range, or the end of the fuel.
pub mod Table
pub mod Literal
pub mod Rounds
pub mod Whole
mod Tests
use framer.Base.{
  ℕ, zero, suc, ◌/◌, ◌%◌, Bytes, List, [], ◌∷◌, ◌++◌, Option, none, some, Bool, true, false, ◌&&◌,
  ◌||◌, if◌then◌else◌, ◌==◌, ltb, length, take, drop, get_elem?, replicate, codes, ◌>>=◌,
}

-- `hex`
abbrev pub hex : Bytes
hex = codes "0123456789abcdef"

-- `lt`: which bytes are written as they are.
pub lt : List Bool
lt =
    replicate 32 false
    ++ (true ∷ true ∷ false ∷ true ∷ true ∷ true ∷ false ∷ replicate 21 true)
    ++ (false ∷ true ∷ false ∷ replicate 29 true)
    ++ (false ∷ replicate 163 true)

-- The `switch` on a byte that is not written as it is.
pub escaped : ℕ → Option Bytes
escaped b =
    if (b == 92) || (b == 34)
    then some (92 ∷ b ∷ [])
    else if b == 10
    then some (codes "\\n")
    else if b == 13
    then some (codes "\\r")
    else (get_elem? hex (b / 16) >>= λ h.
        get_elem? hex (b % 16) >>= λ l. some (codes "\\u00" ++ h ∷ l ∷ []))

-- `utf8.RuneError`
abbrev pub rune_error : ℕ
rune_error = 65533

-- What the loop keeps: `bb`, `s[start:i]` and `s[i:]`.
pub record Escaper : Type 0 where
  pub bb : Bytes
  pub pending : Bytes
  pub left : Bytes

-- `utf8.DecodeRune`, of the standard library: the rune and its width.
module _ (decode_rune : Bytes → ℕ × ℕ) where
  -- One round of the loop, at the byte `b` that is before `r`.
  pub escape_round : Bytes → Bytes → ℕ → Bytes → Option Escaper
  unfolding lt escaped
  escape_round bb pending b r =
      let (c, size) = decode_rune (b ∷ r) in
      if ltb b 128
      then (get_elem? lt b >>= λ plain.
          if plain
          then some (record { bb = bb; pending = pending ++ b ∷ []; left = r })
          else (escaped b >>= λ e.
              some (record { bb = bb ++ pending ++ e; pending = []; left = r })))
      else if (c == rune_error) && (size == 1)
      then some
          (record { bb = bb ++ pending ++ codes "\\ufffd"; pending = []; left = drop size (b ∷ r) })
      else if (c == 8232) || (c == 8233)
      then (get_elem? hex (c % 16) >>= λ h. some (record {
        bb = bb ++ pending ++ codes "\\u202" ++ h ∷ [];
        pending = [];
        left = drop size (b ∷ r);
      }))
      else some
          (record { bb = bb; pending = pending ++ take size (b ∷ r); left = drop size (b ∷ r) })

  -- The loop, and the end of the function, on fuel.
  pub escape_from : ℕ → Bytes → Bytes → Bytes → Option Bytes
  unfolding escape_round
  escape_from zero bb pending s = none
  escape_from (suc n) bb pending [] = some (bb ++ pending ++ 34 ∷ [])
  escape_from (suc n) bb pending (b ∷ r) =
      escape_round bb pending b r >>= λ q. escape_from n q.bb q.pending q.left

  -- `EscapeStringAppend`: each round takes a byte at least, if `decode_rune` gives no width 0.
  unfoldable pub escape_string_append : Bytes → Bytes → Option Bytes
  unfolding escape_from
  escape_string_append bb s = escape_from (suc (length s)) (bb ++ 34 ∷ []) [] s
