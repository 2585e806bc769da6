-- ===== src/Reciever/Framer/Frames.antt =====
-- The abstract side: whole frames, their bytes on the wire, and that the wire determines them.
use framer.Base.{
  ℕ, of_some, ◌<◌, ◌≡◌, refl, sym, ap, ◌∙◌, Bytes, List, [], ◌∷◌, ◌++◌, some, All, length,
  length-append, append_assoc, arith,
}
use mathlib.Core.Path.{ap₂}
use framer.FrameHeader.{length_field}

-- A frame on the wire: nine bytes of header, and the payload that its length field announces.
pub record Frame : Type 0 where
  pub header : Bytes
  pub payload : Bytes

pub record IsFrame (f : Frame) : Type 0 where
  pub nine : length f.header ≡ 9
  pub announced : length_field f.header ≡ some (length f.payload)

-- The bytes of a list of frames.
abbrev pub wire : List Frame → Bytes
wire [] = []
wire (f ∷ fs) = f.header ++ (f.payload ++ wire fs)

-- A frame of which some bytes, possibly none, are still to come.
pub data IsPartial (h part : Bytes) : Type 0 where
  in_header : length h < 9 → part ≡ [] → IsPartial h part
  in_payload : (n : ℕ) → length h ≡ 9 → length_field h ≡ some n → length part < n → IsPartial h part

module _ {ℓ} {A : Type ℓ} where
  -- Two splits of one list at the same place are the same.
  pub append_cancel : (a b c d : List A) → length a ≡ length b → a ++ c ≡ b ++ d → (a ≡ b) × (c ≡ d)
  append_cancel [] [] c d n e = (refl, e)
  append_cancel [] (y ∷ b) c d n e = absurd (omega arith)
  append_cancel (x ∷ a) [] c d n e = absurd (omega arith)
  append_cancel (x ∷ a) (y ∷ b) c d n e =
      let heads : x ≡ y = cc in
      let tails : a ++ c ≡ b ++ d = cc in
      let (p, q) = append_cancel a b c d (omega arith) tails in (cc, q)

wire_head :
    (f g : Frame) (xs ys : Bytes)
    → IsFrame f
    → IsFrame g
    → f.header ++ (f.payload ++ xs) ≡ g.header ++ (g.payload ++ ys)
    → (f ≡ g) × (xs ≡ ys)
wire_head f g xs ys vf vg e =
    let (h, r) = append_cancel f.header g.header _ _ (vf.nine ∙ sym vg.nine) e in
    let (p, q) =
      append_cancel f.payload g.payload xs ys
        (of_some (sym vf.announced ∙ ap length_field h ∙ vg.announced)) r in
    ((λ i. record { header = h i; payload = p i }), q)

-- An unfinished frame does not begin with a whole one.
partial_head :
    (f : Frame) (h part xs : Bytes)
    → IsFrame f
    → IsPartial h part
    → f.header ++ (f.payload ++ xs) ≡ h ++ part
    → ⊥
partial_head f h part xs v (in_header short e) eq = omega (
  arith,
  ap length eq,
  ap length e,
  v.nine,
  length-append f.header (f.payload ++ xs),
  length-append h part,
)
partial_head f h part xs v (in_payload n nine len short) eq =
    let (same, r) = append_cancel f.header h (f.payload ++ xs) part (v.nine ∙ sym nine) eq in
    let size : length f.payload ≡ n = of_some (sym v.announced ∙ ap length_field same ∙ len) in
    omega (arith, ap length r, length-append f.payload xs, size)

regroup :
    (f : Frame) (fs : List Frame) (xs : Bytes)
    → wire (f ∷ fs) ++ xs ≡ f.header ++ (f.payload ++ (wire fs ++ xs))
regroup f fs xs = simp append_assoc

-- A stream of bytes is whole frames and an unfinished one in one way only.
pub frames_unique :
    (fs gs : List Frame) (h part h' part' : Bytes)
    → All IsFrame fs
    → All IsFrame gs
    → IsPartial h part
    → IsPartial h' part'
    → wire fs ++ (h ++ part) ≡ wire gs ++ (h' ++ part')
    → (fs ≡ gs) × (h ++ part ≡ h' ++ part')
frames_unique [] [] h part h' part' vf vg p p' e = (refl, e)
frames_unique [] (g ∷ gs) h part h' part' vf vg p p' e =
    absurd (partial_head g h part _ vg.0 p (sym (regroup g gs _) ∙ sym e))
frames_unique (f ∷ fs) [] h part h' part' vf vg p p' e =
    absurd (partial_head f h' part' _ vf.0 p' (sym (regroup f fs _) ∙ e))
frames_unique (f ∷ fs) (g ∷ gs) h part h' part' vf vg p p' e =
    let (same, rest) = wire_head f g _ _ vf.0 vg.0 (sym (regroup f fs _) ∙ e ∙ regroup g gs _) in
    let (tails, ends) = frames_unique fs gs h part h' part' vf.1 vg.1 p p' rest in
    (ap₂ ◌∷◌ same tails, ends)
