-- ===== src/Formats/MetaJson/Tests.antt =====
-- Two values for one name, and one for another.
use framer.Base.{ℕ, ◌≡◌, refl, Bytes, List, [], ◌∷◌, some, codes, arith, inl, inr}
use framer.Formats.BinaryEncoding.{Meta}
use framer.Formats.Escape.{escape_string_append}
use framer.Formats.Escape.Literal.{IsUtf8, Literal, Cleaned}
use framer.Formats.MetaJson.{marshal_multi, marshal_single}
use framer.Formats.MetaJson.Objects.{group, entries, quoted, object, singles, marshal-object}

-- A decoder that knows no rune beyond ASCII.
abbrev decode : Bytes → ℕ × ℕ
decode s = (65533, 1)

decode-IsUtf8 : IsUtf8 decode
decode-IsUtf8 = record {
  width = λ b r h. omega arith;
  high = λ b r h. (h, tt);
  separator = λ b r h s. absurd (elim s [ inl q ↦ omega (arith, q) | inr q ↦ omega (arith, q) ]);
}

abbrev meta : List Meta
meta =
    record { name = codes "a"; value = codes "1" }
    ∷ record { name = codes "a"; value = codes "2" }
    ∷ record { name = codes "b"; value = codes "3" }
    ∷ []

-- The list is sorted.
abbrev sorted : List Meta → List Meta
sorted ms = ms

marshal-object_example :
    (marshal_multi decode sorted [] meta ≡ some (object decode decode-IsUtf8 (group meta)))
    × (entries (group meta) ≡ meta)
    × (marshal_single decode [] meta ≡ some (123 ∷ singles decode decode-IsUtf8 meta))
    × ((s : Bytes)
        → (out : Bytes) × (text : Bytes) × (quoted decode decode-IsUtf8 s ≡ 34 ∷ out)
          × Literal out text
          × Cleaned decode s text)
marshal-object_example = marshal-object decode decode-IsUtf8 sorted [] meta refl

multi_run : marshal_multi decode sorted [] meta ≡ some (codes "{\"a\":[\"1\",\"2\"],\"b\":[\"3\"]}")
unfolding marshal_multi escape_string_append
multi_run = refl
