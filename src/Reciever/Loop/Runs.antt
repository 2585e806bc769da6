-- ===== src/Reciever/Loop/Runs.antt =====
-- Buffers of any sizes: the events on which the processors are called, up to the first error, are those
-- that the bytes put together spell.
use framer.Base.{◌≡◌, Bytes, List, [], ◌∷◌, ◌++◌, some, All}
use framer.Reciever.Framer.{Framer}
use framer.Reciever.Framer.Frames.{IsFrame, wire}
use framer.Reciever.Framer.Next.{Shape}
use framer.Reciever.Loop.{Handler, run}
use framer.Reciever.Loop.Drains.{Event, feed, with_framer}
use framer.Reciever.Loop.Chunks.{frames_of, open_part}

-- The bytes of the buffers, one after the other.
unfoldable pub joined : List Bytes → Bytes
joined [] = []
joined (c ∷ cs) = c ++ joined cs

-- What a list of buffers comes to: the calls of the processors, whatever these are.
pub record Fed (p : Framer) (part : Bytes) (chunks : List Bytes) (es : List Event) (q : Framer)
    : Type 1 where
  pub calls :
      (S : Type 0) (handle : Handler S) (s : S)
      → run handle p s chunks ≡ some (with_framer q (feed handle s es))
  pub shape : Shape q (open_part part es)
  pub whole : All IsFrame (frames_of part es)
  pub spelled :
      wire (frames_of part es) ++ (q.current_header ++ open_part part es)
      ≡ p.current_header ++ (part ++ joined chunks)
