-- ===== src/Reciever/Buffers/Overwrite.antt =====
-- A write to one buffer leaves what the processors hold in the other.
use framer.Base.{ℕ, ◌≡◌, ◌≢◌, refl, sym, subst, ap, ◌∙◌, Bytes, List, [], ◌∷◌, ◌++◌, take, length}
use framer.Reciever.Loop.{Handler}
use framer.Reciever.Buffers.{Which, Processing, other, overwrite}
use framer.Reciever.Buffers.Invariant.{IsHolding, IsProcessing}

pub overwrite_self : (f : Which → Bytes) (w : Which) (b : Bytes) → overwrite f w b w ≡ b
overwrite_self f Which.buf1 b = refl
overwrite_self f Which.buf2 b = refl

overwrite-other :
    (f : Which → Bytes) (w : Which) (b : Bytes) → overwrite f w b (other w) ≡ f (other w)
overwrite-other f Which.buf1 b = refl
overwrite-other f Which.buf2 b = refl

pub other-other : (w : Which) → w ≡ other (other w)
other-other Which.buf1 = refl
other-other Which.buf2 = refl

pub is_other : (w : Which) → w ≢ other w
is_other Which.buf1 e = cc
is_other Which.buf2 e = cc

pub take_first : (c junk : Bytes) → take (length c) (c ++ junk) ≡ c
take_first [] junk = refl
take_first (b ∷ c) junk = ap (◌∷◌ b) (take_first c junk)

module _ {S : Type 0} (handle : Handler S) where
  IsHolding-overwrite :
      (f : Which → Bytes) (w : Which) (b : Bytes) (v : Which) (n : ℕ) (held : List Bytes)
      → v ≡ other w
      → IsHolding handle f v n held
      → IsHolding handle (overwrite f w b) v n held
  IsHolding-overwrite f w b v n held e (c, one, same) = (
    c,
    one,
    subst (λ v. take n (overwrite f w b v) ≡ c) (sym e)
        (ap (take n) (overwrite-other f w b) ∙ subst (λ v. take n (f v) ≡ c) e same),
  )

  pub IsProcessing-overwrite :
      (x : Processing S) (held : List Bytes) (f : Which → Bytes) (w : Which) (b : Bytes)
      → IsProcessing handle x held f w
      → IsProcessing handle x held (overwrite f w b) w
  IsProcessing-overwrite Processing.idle held f w b h = h
  IsProcessing-overwrite (Processing.processing v n) held f w b (e, h) =
      (e, IsHolding-overwrite f w b v n held e h)
  IsProcessing-overwrite (Processing.blocked v n) held f w b (e, h) =
      (e, IsHolding-overwrite f w b v n held e h)
  IsProcessing-overwrite (Processing.ended r) held f w b h = h
