-- ===== src/FrameHeader/Layout.antt =====
-- The nine bytes of a frame header as RFC 9113 lays them out, and the writers against that layout.
use framer.Base.{ℕ, ◌/◌, ◌≡◌, refl, Bytes, [], ◌∷◌, some, byte, length, arith, ◌>>=◌, ◌∙◌, sym}
use framer.FrameHeader.{fill, set_length, set_type, set_flags, set_stream_id}

-- Length (24 bits), type, flags and stream identifier, most significant byte first.
abbrev pub layout : ℕ → ℕ → ℕ → ℕ → Bytes
layout len t flags id =
    byte (len / 65536)
    ∷ byte (len / 256)
    ∷ byte len
    ∷ byte t
    ∷ byte flags
    ∷ byte (id / 16777216)
    ∷ byte (id / 65536)
    ∷ byte (id / 256)
    ∷ byte id
    ∷ []

-- A slice of nine bytes, taken apart.
abbrev pub Nine : Bytes → Type 0
Nine f = (a b c d e g h i j : ℕ) × (f ≡ a ∷ b ∷ c ∷ d ∷ e ∷ g ∷ h ∷ i ∷ j ∷ [])

pub nine : (f : Bytes) → length f ≡ 9 → Nine f
nine [] e = absurd (omega arith)
nine (_ ∷ []) e = absurd (omega arith)
nine (_ ∷ _ ∷ []) e = absurd (omega arith)
nine (_ ∷ _ ∷ _ ∷ []) e = absurd (omega arith)
nine (_ ∷ _ ∷ _ ∷ _ ∷ []) e = absurd (omega arith)
nine (_ ∷ _ ∷ _ ∷ _ ∷ _ ∷ []) e = absurd (omega arith)
nine (_ ∷ _ ∷ _ ∷ _ ∷ _ ∷ _ ∷ []) e = absurd (omega arith)
nine (_ ∷ _ ∷ _ ∷ _ ∷ _ ∷ _ ∷ _ ∷ []) e = absurd (omega arith)
nine (_ ∷ _ ∷ _ ∷ _ ∷ _ ∷ _ ∷ _ ∷ _ ∷ []) e = absurd (omega arith)
nine (a ∷ b ∷ c ∷ d ∷ e ∷ g ∷ h ∷ i ∷ j ∷ []) _ = (a, b, c, d, e, g, h, i, j, refl)
nine (_ ∷ _ ∷ _ ∷ _ ∷ _ ∷ _ ∷ _ ∷ _ ∷ _ ∷ _ ∷ r) e = absurd (omega arith)

pub fill-layout :
    (f : Bytes) (len t flags id : ℕ)
    → length f ≡ 9
    → fill f len t flags id ≡ some (layout len t flags id)
unfolding fill
fill-layout f len t flags id h = let (a, b, c, d, e, g, h', i, j, shape) = nine f h in rw shape

pub setters-layout :
    (f : Bytes) (len t flags id : ℕ)
    → length f ≡ 9
    → (set_length f len >>= λ f1.
        set_type f1 t >>= λ f2. set_flags f2 flags >>= λ f3. set_stream_id f3 id)
      ≡ some (layout len t flags id)
unfolding set_length set_type set_flags set_stream_id
setters-layout f len t flags id h = let (a, b, c, d, e, g, h', i, j, shape) = nine f h in rw shape

-- On any nine bytes, the four setters in the order of `setUpHeaders` write what one `Fill` writes.
pub setters-fill :
    (f : Bytes) (len t flags id : ℕ)
    → length f ≡ 9
    → (set_length f len >>= λ f1.
        set_type f1 t >>= λ f2. set_flags f2 flags >>= λ f3. set_stream_id f3 id)
      ≡ fill f len t flags id
setters-fill f len t flags id h =
    setters-layout f len t flags id h ∙ sym (fill-layout f len t flags id h)
