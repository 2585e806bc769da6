-- ===== src/Formats/BinaryEncoding/Lines.antt =====
-- What `MarshalAppend` writes, `Unmarshal` reads back.
use framer.Base.{
  ◌≡◌, refl, ap, ◌∙◌, Bytes, List, [], ◌∷◌, ◌++◌, some, false, ◌==◌, All, append_assoc,
}
use framer.Formats.BinaryEncoding.{
  Meta, Data, MetaCodec, split_line, next_line, marshal_append, unmarshal,
}

-- Without a line break.
abbrev pub IsLine : Bytes → Type 0
IsLine = All (λ b. (b == 10) ≡ false)

split_line-IsLine : (l r : Bytes) → IsLine l → split_line (l ++ 10 ∷ r) ≡ some (l, r)
unfolding split_line
split_line-IsLine [] r h = refl
split_line-IsLine (b ∷ l) r h = rw (h.0, split_line-IsLine l r h.1) refl

pub next_line-IsLine : (l r : Bytes) → IsLine l → next_line (l ++ 10 ∷ r) ≡ (l, r)
unfolding next_line
next_line-IsLine l r h = rw (split_line-IsLine l r h, next_line) refl

-- `Marshaler` appends to what is there.
abbrev pub Appends : MetaCodec → Type 0
Appends C = (b : Bytes) (m : List Meta) → C.marshal_append b m ≡ b ++ C.marshal_append [] m

module _ (C : MetaCodec) (appends : Appends C) where
  marshalled :
      (d : Data)
      → marshal_append C [] d
        ≡ d.tag ++ 10 ∷ (d.method ++ 10 ∷ (C.marshal_append [] d.metadata ++ 10 ∷ d.message))
  unfolding marshal_append
  marshalled d =
      let k = C.marshal_append [] d.metadata in
      ap (λ x. x ++ 10 ∷ [] ++ d.message)
        (appends (d.tag ++ 10 ∷ [] ++ d.method ++ 10 ∷ []) d.metadata)
      ∙ simp (append_assoc) refl

  -- A request whose tag, method and metadata, as marshalled, have no line break is read back as it was
  -- written, with the metadata that the metadata's own unmarshalling gives; what it is read into does
  -- not matter.
  pub unmarshal-marshal_append :
      (old d : Data) (kept : List Meta)
      → IsLine d.tag
      → IsLine d.method
      → IsLine (C.marshal_append [] d.metadata)
      → C.unmarshal_append [] (C.marshal_append [] d.metadata) ≡ (kept, false)
      → unmarshal C old (marshal_append C [] d) ≡ (record d { metadata = kept }, false)
  unfolding unmarshal
  unmarshal-marshal_append old d kept t m k back =
      let meta = C.marshal_append [] d.metadata in
      ap (unmarshal C old) (marshalled d)
      ∙ rw
          (
            next_line-IsLine d.tag (d.method ++ 10 ∷ (meta ++ 10 ∷ d.message)) t,
            next_line-IsLine d.method (meta ++ 10 ∷ d.message) m,
            next_line-IsLine meta d.message k,
            back,
          )
          refl
