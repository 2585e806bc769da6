-- ===== src/Formats/BinaryEncoding/Tests.antt =====
-- A request with one pair of metadata, over a simple form of it: each pair as `name:value;`.
use framer.Base.{
  ◌≡◌, refl, Bytes, List, [], ◌∷◌, ◌++◌, Option, none, some, false, if◌then◌else◌, ◌==◌, codes,
}
use framer.Formats.BinaryEncoding.{Meta, Data, MetaCodec, marshal_append, unmarshal}
use framer.Formats.BinaryEncoding.Lines.{Appends, unmarshal-marshal_append}

abbrev write_pairs : List Meta → Bytes
write_pairs [] = []
write_pairs (m ∷ ms) = m.name ++ 58 ∷ m.value ++ 59 ∷ [] ++ write_pairs ms

abbrev read_pairs : Option Bytes → Bytes → Bytes → List Meta
read_pairs name acc [] = []
read_pairs none acc (b ∷ s) =
    let name_ends = read_pairs (some acc) [] s in
    let goes_on = read_pairs none (acc ++ b ∷ []) s in if b == 58 then name_ends else goes_on
read_pairs (some n) acc (b ∷ s) =
    let value_ends = read_pairs none [] s in
    let goes_on = read_pairs (some n) (acc ++ b ∷ []) s in
    if b == 59 then record { name = n; value = acc } ∷ value_ends else goes_on

abbrev pairs : MetaCodec
pairs = record {
  marshal_append = λ b m. b ++ write_pairs m;
  unmarshal_append = λ buf s. (buf ++ read_pairs none [] s, false);
}

pairs-Appends : Appends pairs
pairs-Appends b m = refl

abbrev request : Data
request = record {
  tag = codes "t";
  method = codes "/a/b";
  metadata = record { name = codes "k"; value = codes "v" } ∷ [];
  message = codes "x\ny";
}

abbrev old : Data
old = record { tag = codes "o"; method = []; metadata = []; message = codes "z" }

unmarshal-marshal_append_example :
    unmarshal pairs old (marshal_append pairs [] request) ≡ (request, false)
unmarshal-marshal_append_example =
    unmarshal-marshal_append pairs pairs-Appends old request request.metadata (refl, tt)
      (refl, (refl, (refl, (refl, tt)))) (refl, (refl, (refl, (refl, tt)))) refl
