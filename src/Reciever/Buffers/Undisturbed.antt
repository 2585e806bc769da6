-- ===== src/Reciever/Buffers/Undisturbed.antt =====
-- What the processors come to, in every state that the goroutines can reach.
use framer.Base.{ℕ, ◌≡◌, ◌≢◌, refl, sym, ap, ◌∙◌, Bytes, List, ◌∷◌, ◌++◌, some, take}
use framer.Reciever.Framer.{new_framer}
use framer.Reciever.Loop.{Handler, run}
use framer.Reciever.Buffers.{Which, Failure, Reading, Processing, Reciever, Reach}
use framer.Reciever.Buffers.Invariant.{outcome, IsProcessing}
use framer.Reciever.Buffers.Overwrite.{is_other}
use framer.Reciever.Buffers.Steps.{Holds, is_reading, is_processing, Reach-Inv}

module _ {S : Type 0} (handle : Handler S) where
  -- What the processors are at work on is the read that comes next, in the buffer that the reader does
  -- not write to.
  abbrev pub IsIntact : Processing S → List Bytes → (Which → Bytes) → Which → Type 0
  IsIntact (Processing.processing w n) rest buffer turn =
      (w ≢ turn) × (c : Bytes) × (cs : List Bytes) × (rest ≡ c ∷ cs) × (take n (buffer w) ≡ c)
  IsIntact (Processing.blocked w n) rest buffer turn =
      (w ≢ turn) × (c : Bytes) × (cs : List Bytes) × (rest ≡ c ∷ cs) × (take n (buffer w) ≡ c)
  IsIntact _ rest buffer turn = Unit

  -- If the connection's error has ended the reader, and the processors have ended, all reads are taken.
  abbrev pub IsDrained : Processing S → Reading → List Bytes → List Bytes → Type 0
  IsDrained (Processing.ended r) (Reading.ended (some Failure.reading)) rest conn = rest ≡ conn
  IsDrained _ _ rest conn = Unit

  module _ (s₀ : S) (chunks : List Bytes) where
    at_work :
        (w : Which) (n : ℕ) {t : Reciever S} (inv : Holds handle s₀ chunks t)
        → IsProcessing handle (Processing.processing w n) inv.taken t.buffer t.turn
        → IsIntact (Processing.processing w n) (inv.taken ++ (inv.held ++ t.conn)) t.buffer t.turn
    at_work w n {t} inv (f, (c, one, same)) = (
      λ g. is_other t.turn (sym g ∙ f),
      c,
      inv.held ++ t.conn,
      ap (λ taken. taken ++ (inv.held ++ t.conn)) one,
      same,
    )

    intact :
        (x : Processing S) {t : Reciever S} (inv : Holds handle s₀ chunks t)
        → t.processor ≡ x
        → IsIntact x (inv.taken ++ (inv.held ++ t.conn)) t.buffer t.turn
    intact Processing.idle inv e = tt
    intact (Processing.processing w n) inv e =
        at_work w n inv (is_processing handle s₀ chunks inv (Processing.processing w n) e)
    intact (Processing.blocked w n) inv e =
        at_work w n inv (is_processing handle s₀ chunks inv (Processing.blocked w n) e)
    intact (Processing.ended r) inv e = tt

    drained :
        (x : Processing S) (r : Reading) {t : Reciever S} (inv : Holds handle s₀ chunks t)
        → t.processor ≡ x
        → t.reader ≡ r
        → IsDrained x r (inv.taken ++ (inv.held ++ t.conn)) t.conn
    drained (Processing.ended x) (Reading.ended (some Failure.reading)) {t} inv e f =
        ap (λ taken. taken ++ (inv.held ++ t.conn))
          (is_processing handle s₀ chunks inv (Processing.ended x) e)
        ∙ ap (λ held. held ++ t.conn)
            (is_reading handle s₀ chunks inv (Reading.ended (some Failure.reading)) f)
    drained _ _ inv e f = tt

    -- In every state that the two goroutines can reach, whatever each read leaves in the rest of the
    -- buffer, whatever the processors answer, whatever fails and whenever the context is cancelled: the
    -- processors have come to just what `Run` comes to on the first reads, `done`, in order; while the
    -- processors are at work on the first `n` bytes of a buffer, or wait for the sender's goroutine, it
    -- is the reader's turn to write to the other buffer, and those bytes are the read that comes next;
    -- and if the reader was ended by the connection's error and the processors have ended, all that was
    -- read is in `done`.
    pub Reach-undisturbed :
        {t : Reciever S}
        → Reach handle s₀ chunks t
        → (done : List Bytes) × (rest : List Bytes) × (chunks ≡ done ++ rest)
          × (run handle new_framer s₀ done ≡ outcome handle t.processor t.state t.framer)
          × IsIntact t.processor rest t.buffer t.turn
          × IsDrained t.processor t.reader rest t.conn
    Reach-undisturbed {t} r =
        let inv = Reach-Inv handle s₀ chunks r in
        (
          inv.done,
          inv.taken ++ (inv.held ++ t.conn),
          inv.all,
          inv.ran,
          intact t.processor inv refl,
          drained t.processor t.reader inv refl refl,
        )
