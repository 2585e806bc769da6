-- ===== src/Reciever/Dispatch/Tests.antt =====
-- A frame of a type that no table knows.
use framer.Base.{ℕ, ◌≡◌, refl, Bytes, [], ◌∷◌, some, false, inr, arith}
use framer.FrameHeader.{type_field}
use framer.Streams.Store.Map.{streams_map}
use framer.Reciever.Loop.{panic}
use framer.Reciever.Headers.Tests.{whole_blocks, has}
use framer.Reciever.Dispatch.{Processors, new_default_processor, dispatch}
use framer.Reciever.Dispatch.Table.{dispatch-refused}

abbrev extension : Bytes
extension = 0 ∷ 0 ∷ 0 ∷ 16 ∷ 0 ∷ 0 ∷ 0 ∷ 0 ∷ 0 ∷ []

abbrev fresh : Processors (streams_map ℕ) whole_blocks has
fresh = new_default_processor (streams_map ℕ) whole_blocks has []

extension_type : type_field extension ≡ some 16
unfolding type_field
extension_type = refl

extension_panics : dispatch (streams_map ℕ) whole_blocks has extension [] false fresh ≡ panic
extension_panics =
    dispatch-refused (streams_map ℕ) whole_blocks has fresh extension [] false 16 extension_type
      (inr (inr (omega arith)))
