-- ===== src/Formats/BinaryEncoding.antt =====
-- formats/grpc/ozon/binary/encoding and formats/model: a request as three lines, of its tag, its method
-- and its metadata, and its message. The metadata's form is `formats/internal/kv`'s interface.
pub mod Lines
mod Tests
use framer.Base.{
  ℕ, Bytes, List, [], ◌∷◌, ◌++◌, Option, none, some, Bool, true, false, if◌then◌else◌, ◌==◌, ◌≡◌,
}

-- `model.Meta`
pub record Meta : Type 0 where
  pub name : Bytes
  pub value : Bytes

-- `model.Data`
pub record Data : Type 0 where
  pub tag : Bytes
  pub method : Bytes
  pub metadata : List Meta
  pub message : Bytes

-- `Data.Reset`
abbrev pub reset : Data → Data
reset d = record { tag = []; method = []; metadata = []; message = [] }

-- `kv.Marshaler` and `kv.Unmarshaler`; the flag is whether there is an error.
pub record MetaCodec : Type 0 where
  pub marshal_append : Bytes → List Meta → Bytes
  pub unmarshal_append : List Meta → Bytes → List Meta × Bool

-- What is before and behind the first line break, if there is one.
unfoldable pub split_line : Bytes → Option (Bytes × Bytes)
split_line [] = none
split_line (b ∷ s) =
    let rest = split_line s in
    if b == 10 then some ([], s) else elim rest [ none ↦ none | some (l, r) ↦ some (b ∷ l, r) ]

-- `nextLine`
unfoldable pub next_line : Bytes → Bytes × Bytes
unfolding split_line
next_line s = elim (split_line s) [ none ↦ ([], []) | some p ↦ p ]

module _ (C : MetaCodec) where
  -- `Encoder.MarshalAppend`
  unfoldable pub marshal_append : Bytes → Data → Bytes
  marshal_append b d =
      C.marshal_append (b ++ d.tag ++ 10 ∷ [] ++ d.method ++ 10 ∷ []) d.metadata
      ++ 10 ∷ []
      ++ d.message

  -- `Decoder.Unmarshal`: what `d` is afterwards, and whether there is an error.
  unfoldable pub unmarshal : Data → Bytes → Data × Bool
  unfolding next_line
  unmarshal d b =
      let (tag, b1) = next_line b in
      let (method, b2) = next_line b1 in
      let (meta_bytes, b3) = next_line b2 in
      let (metadata, failed) = C.unmarshal_append (reset d).metadata meta_bytes in
      if failed
      then (record { tag = tag; method = method; metadata = metadata; message = [] }, true)
      else (record { tag = tag; method = method; metadata = metadata; message = b3 }, false)
