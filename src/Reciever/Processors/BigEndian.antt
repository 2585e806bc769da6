-- ===== src/Reciever/Processors/BigEndian.antt =====
-- The numbers that the processors shift in, and frames that arrive in pieces.
use framer.Base.{
  ℕ, ◌+◌, ◌*◌, ◌%◌, ◌<◌, ◌≡◌, refl, ◌∙◌, ap, Bytes, List, [], ◌∷◌, ◌++◌, Bool, true, false, bit_or,
  arith, or_byte, AllBytes,
}
use framer.Reciever.Loop.{Result}
use framer.Reciever.World.{◌>>=◌}
use framer.Reciever.Processors.{shift_in, shift_all}

-- Four bytes as a number, the most significant first.
abbrev pub big_endian : ℕ → ℕ → ℕ → ℕ → ℕ
big_endian a b c d = a * 16777216 + b * 65536 + c * 256 + d

pub shift_in_lem : (x b : ℕ) → b < 256 → shift_in x b ≡ (x * 256 + b) % 4294967296
unfolding shift_in
shift_in_lem x b h = ap (λ t. bit_or t b) cut ∙ or_byte (x % 16777216) b h ∙ omega arith
  where
    cut : (x * 256) % 4294967296 ≡ x % 16777216 * 256
    cut = omega arith

-- Four bytes shift everything older out.
pub shift_all_four :
    (x a b c d : ℕ)
    → AllBytes (a ∷ b ∷ c ∷ d ∷ [])
    → shift_all x (a ∷ b ∷ c ∷ d ∷ []) ≡ big_endian a b c d
unfolding shift_all
shift_all_four x a b c d (ha, (hb, (hc, (hd, _)))) = omega (
  arith,
  shift_in_lem x a ha,
  shift_in_lem (shift_in x a) b hb,
  shift_in_lem (shift_in (shift_in x a) b) c hc,
  shift_in_lem (shift_in (shift_in (shift_in x a) b) c) d hd,
)

pub shift_all-append :
    (x : ℕ) (bs cs : Bytes) → shift_all x (bs ++ cs) ≡ shift_all (shift_all x bs) cs
unfolding shift_all
shift_all-append x [] cs = refl
shift_all-append x (b ∷ bs) cs = shift_all-append (shift_in x b) bs cs

-- The pieces of a payload before its last, put together with it.
abbrev pub payload_of : List Bytes → Bytes → Bytes
payload_of [] b = b
payload_of (p ∷ ps) b = p ++ payload_of ps b

-- A processor called on the pieces of one frame.
abbrev pub run_pieces {ℓ κ} :
    {P : Type ℓ} {T : Type κ}
    → (P → Bytes → Bool → Result P T)
    → P
    → List Bytes
    → Bytes
    → Result P T
run_pieces f p [] b = f p b false
run_pieces f p (a ∷ ps) b = f p a true >>= λ q. run_pieces f q ps b
