-- ===== src/FrameHeader/Fields.antt =====
-- What the readers return on a written header.
use framer.Base.{
  ℕ, ◌+◌, ◌*◌, ◌<◌, ◌≡◌, refl, Bytes, ◌∷◌, some, bit_or, arith, or_byte, or_high_byte, length,
  u32_mod, ap, ◌∙◌,
}
use framer.FrameHeader.{length_field, type_field, flags_field, stream_id_field, fill}
use framer.FrameHeader.Layout.{layout, fill-layout}

pub length_field_lem :
    (a b c : ℕ) (rest : Bytes)
    → b < 256
    → c < 256
    → length_field (a ∷ b ∷ c ∷ rest) ≡ some (a * 65536 + b * 256 + c)
unfolding length_field
length_field_lem a b c rest hb hc = ap some (ap (λ x. bit_or x c) (or_high_byte a b hb) ∙ low)
  where
    regroup : a * 65536 + b * 256 ≡ (a * 256 + b) * 256
    regroup = omega arith

    low : bit_or (a * 65536 + b * 256) c ≡ a * 65536 + b * 256 + c
    low = rw regroup (or_byte (a * 256 + b) c hc)

-- Every field of a layout within its width is read back.
pub fields-layout :
    (len t flags id : ℕ)
    → len < 16777216
    → t < 256
    → flags < 256
    → id < u32_mod
    → (length_field (layout len t flags id) ≡ some len)
      × (type_field (layout len t flags id) ≡ some t)
      × (flags_field (layout len t flags id) ≡ some flags)
      × (stream_id_field (layout len t flags id) ≡ some id)
unfolding type_field flags_field stream_id_field
fields-layout len t flags id hl ht hf hi = (
  length_field_lem _ _ _ _ (omega arith) (omega arith) ∙ ap some (omega arith),
  ap some (omega arith),
  ap some (omega arith),
  ap some (omega arith),
)

-- `Fill` on any nine bytes, with each value within its width, gives nine bytes from which the four
-- readers return the values.
pub fields-fill :
    (f : Bytes) (len t flags id : ℕ)
    → length f ≡ 9
    → len < 16777216
    → t < 256
    → flags < 256
    → id < u32_mod
    → (g : Bytes) × (fill f len t flags id ≡ some g)
      × (length g ≡ 9)
      × (length_field g ≡ some len)
      × (type_field g ≡ some t)
      × (flags_field g ≡ some flags)
      × (stream_id_field g ≡ some id)
fields-fill f len t flags id h hl ht hf hi =
    let (a, b, c, d) = fields-layout len t flags id hl ht hf hi in
    (layout len t flags id, fill-layout f len t flags id h, refl, a, b, c, d)
