-- ===== src/Formats/MetaJson.antt =====
-- formats/internal/kv/json/jsonkv.go: how metadata is written as JSON, with a list of values for each name
-- (`MultiVal`) or a value for each (`SingleVal`). `sort.Sort` is a parameter, as `utf8.DecodeRune` is. `none`
-- is a panic.
pub mod Objects
mod Tests
use framer.Base.{ℕ, Bytes, List, [], ◌∷◌, ◌++◌, Option, none, some, if◌then◌else◌, ◌>>=◌, codes}
use framer.Datasource.Middleware.{eq_bytes}
use framer.Formats.Escape.{escape_string_append}
use framer.Formats.BinaryEncoding.{Meta}

module _ (decode_rune : Bytes → ℕ × ℕ) where
  abbrev pub escape : Bytes → Bytes → Option Bytes
  escape = escape_string_append decode_rune

  -- The loop of `MultiVal.MarshalAppend` behind the value of `prev`, and its end.
  unfoldable pub multi_from : Bytes → Bytes → List Meta → Option Bytes
  multi_from prev b [] = some (b ++ codes "]}")
  multi_from prev b (m ∷ ms) =
      if eq_bytes m.name prev
      then (escape (b ++ codes ",") m.value >>= λ c. multi_from m.name c ms)
      else (escape (b ++ codes "],") m.name >>= λ c.
          escape (c ++ codes ":[") m.value >>= λ d. multi_from m.name d ms)

  -- `MultiVal.MarshalAppend` once `meta` is sorted.
  unfoldable pub multi_sorted : Bytes → List Meta → Option Bytes
  unfolding multi_from
  multi_sorted b [] = some (b ++ codes "{}")
  multi_sorted b (m ∷ ms) = escape (b ++ codes "{") m.name >>= λ c.
      escape (c ++ codes ":[") m.value >>= λ d. multi_from m.name d ms

  -- `MultiVal.MarshalAppend`
  unfoldable pub marshal_multi : (List Meta → List Meta) → Bytes → List Meta → Option Bytes
  unfolding multi_sorted
  marshal_multi sort b [] = some (b ++ codes "{}")
  marshal_multi sort b (m ∷ ms) = multi_sorted b (sort (m ∷ ms))

  -- The two loops of `SingleVal.MarshalAppend`, and its end.
  unfoldable pub single_from : Bytes → List Meta → Option Bytes
  single_from b [] = some (b ++ codes "}")
  single_from b (m ∷ ms) = escape b m.name >>= λ c. escape (c ++ codes ":") m.value >>= λ d.
      elim ms [ [] ↦ some (d ++ codes "}") | _ ∷ _ ↦ single_from (d ++ codes ",") ms ]

  -- `SingleVal.MarshalAppend`
  unfoldable pub marshal_single : Bytes → List Meta → Option Bytes
  unfolding single_from
  marshal_single b ms = single_from (b ++ codes "{") ms
