-- ===== src/Reciever/Buffers/Steps.antt =====
-- The steps of the two goroutines keep the invariant.
use framer.Base.{
  ℕ, ◌≡◌, refl, sym, subst, ap, ◌∙◌, Bytes, Bool, true, List, [], ◌∷◌, ◌++◌, Option, none, some,
  take, length, append_assoc,
}
use framer.Reciever.Framer.{Framer, new_framer}
use framer.Reciever.Loop.{Result, Handler, process, run}
use framer.Reciever.Buffers.{
  Which, Failure, Reading, Processing, Reciever, other, overwrite, processed, Step, Reach,
}
use framer.Reciever.Buffers.Invariant.{
  run-snoc, IsReading, IsProcessing, outcome, Inv, new_reciever-Inv,
}
use framer.Reciever.Buffers.Overwrite.{
  overwrite_self, other-other, take_first, IsProcessing-overwrite,
}

module _ {S : Type 0} (handle : Handler S) where
  module _ (s₀ : S) (chunks : List Bytes) where
    abbrev pub Holds : Reciever S → Type 0
    Holds = Inv handle s₀ chunks

    -- Another state of the reader, which holds nothing or has lost it.
    reader_turns :
        (t : Reciever S) (r : Reading) (c : Bool) (e : Option Failure)
        → (inv : Holds t) → IsReading handle r inv.held t.buffer t.turn
        → Holds (record t { reader = r; cancelled = c; error = e })
    reader_turns t r c e inv h = record {
      done = inv.done;
      taken = inv.taken;
      held = inv.held;
      all = inv.all;
      ran = inv.ran;
      processing = inv.processing;
      reading = h;
    }

    pub is_reading :
        {t : Reciever S} (inv : Holds t) (r : Reading)
        → t.reader ≡ r
        → IsReading handle r inv.held t.buffer t.turn
    is_reading {t} inv r e = subst (λ r. IsReading handle r inv.held t.buffer t.turn) e inv.reading

    pub is_processing :
        {t : Reciever S} (inv : Holds t) (x : Processing S)
        → t.processor ≡ x
        → IsProcessing handle x inv.taken t.buffer t.turn
    is_processing {t} inv x e =
        subst (λ x. IsProcessing handle x inv.taken t.buffer t.turn) e inv.processing

    ran_to :
        {t : Reciever S} (inv : Holds t) (x : Processing S)
        → t.processor ≡ x
        → run handle new_framer s₀ inv.done ≡ outcome handle x t.state t.framer
    ran_to {t} inv x e =
        subst (λ x. run handle new_framer s₀ inv.done ≡ outcome handle x t.state t.framer) e inv.ran

    read-Inv :
        {t : Reciever S} (c junk : Bytes) (cs : List Bytes)
        → t.reader ≡ Reading.reading
        → t.conn ≡ c ∷ cs
        → Holds t
        → Holds (record t {
          buffer = overwrite t.buffer t.turn (c ++ junk);
          conn = cs;
          reader = Reading.sending (length c);
        })
    read-Inv {t} c junk cs e f inv = record {
      done = inv.done;
      taken = inv.taken;
      held = c ∷ [];
      all =
          inv.all
          ∙ ap (λ held. inv.done ++ (inv.taken ++ (held ++ t.conn)))
              (is_reading inv Reading.reading e)
          ∙ ap (λ conn. inv.done ++ (inv.taken ++ conn)) f;
      ran = inv.ran;
      processing =
          IsProcessing-overwrite handle t.processor inv.taken t.buffer t.turn (c ++ junk)
            inv.processing;
      reading = (
        c,
        refl,
        ap (take (length c)) (overwrite_self t.buffer t.turn (c ++ junk)) ∙ take_first c junk,
      );
    }

    send-Inv :
        {t : Reciever S} (n : ℕ)
        → t.reader ≡ Reading.sending n
        → t.processor ≡ Processing.idle
        → Holds t
        → Holds (record t {
          turn = other t.turn;
          reader = Reading.testing;
          processor = Processing.processing t.turn n;
        })
    send-Inv {t} n e f inv = record {
      done = inv.done;
      taken = inv.held;
      held = [];
      all =
          inv.all
          ∙ ap (λ taken. inv.done ++ (taken ++ (inv.held ++ t.conn)))
              (is_processing inv Processing.idle f);
      ran = ran_to inv Processing.idle f;
      processing = (other-other t.turn, is_reading inv (Reading.sending n) e);
      reading = refl;
    }

    close-Inv :
        {t : Reciever S}
        → t.processor ≡ Processing.idle
        → Holds t
        → Holds (record t { processor = Processing.ended (some (Result.ok (t.state, t.framer))) })
    close-Inv {t} e inv = record {
      done = inv.done;
      taken = inv.taken;
      held = inv.held;
      all = inv.all;
      ran = ran_to inv Processing.idle e;
      processing = is_processing inv Processing.idle e;
      reading = inv.reading;
    }

    module _ {t : Reciever S} (inv : Holds t) (c : Bytes) where
      done_all : inv.taken ≡ c ∷ [] → chunks ≡ (inv.done ++ c ∷ []) ++ (inv.held ++ t.conn)
      done_all e =
          inv.all
          ∙ ap (λ taken. inv.done ++ (taken ++ (inv.held ++ t.conn))) e
          ∙ sym (append_assoc inv.done (c ∷ []) (inv.held ++ t.conn))

      processed-Inv :
          (r : Option (Result (S × Framer) S))
          → inv.taken ≡ c ∷ []
          → run handle new_framer s₀ (inv.done ++ c ∷ []) ≡ r
          → Holds (processed handle r t)
      unfolding processed
      processed-Inv (some (Result.ok (s, p))) one e = record {
        done = inv.done ++ c ∷ [];
        taken = [];
        held = inv.held;
        all = done_all one;
        ran = e;
        processing = refl;
        reading = inv.reading;
      }
      processed-Inv (some (Result.err x s)) one e = record {
        done = inv.done ++ c ∷ [];
        taken = [];
        held = inv.held;
        all = done_all one;
        ran = e;
        processing = refl;
        reading = inv.reading;
      }
      processed-Inv (some Result.panic) one e = record {
        done = inv.done ++ c ∷ [];
        taken = [];
        held = inv.held;
        all = done_all one;
        ran = e;
        processing = refl;
        reading = inv.reading;
      }
      processed-Inv none one e = record {
        done = inv.done ++ c ∷ [];
        taken = [];
        held = inv.held;
        all = done_all one;
        ran = e;
        processing = refl;
        reading = inv.reading;
      }

    -- The end of the processors at work on a buffer.
    finish-Inv :
        {t : Reciever S} (w : Which) (n : ℕ) (inv : Holds t)
        → IsProcessing handle (Processing.processing w n) inv.taken t.buffer t.turn
        → run handle new_framer s₀ inv.done ≡ some (Result.ok (t.state, t.framer))
        → Holds (processed handle (process handle t.framer t.state (take n (t.buffer w))) t)
    finish-Inv {t} w n inv (_, (c, one, same)) ran = processed-Inv inv c _ one (
        run-snoc handle new_framer s₀ inv.done c ran
        ∙ ap (process handle t.framer t.state) (sym same))

    block-Inv :
        {t : Reciever S} (w : Which) (n : ℕ)
        → t.processor ≡ Processing.processing w n
        → Holds t
        → Holds (record t { processor = Processing.blocked w n })
    block-Inv {t} w n e inv = record {
      done = inv.done;
      taken = inv.taken;
      held = inv.held;
      all = inv.all;
      ran = ran_to inv (Processing.processing w n) e;
      processing = is_processing inv (Processing.processing w n) e;
      reading = inv.reading;
    }

    fail_read-Inv :
        {t : Reciever S} (b : Bytes) (e : Option Failure)
        → t.reader ≡ Reading.reading
        → Holds t
        → Holds (record t {
          buffer = overwrite t.buffer t.turn b;
          reader = Reading.ended (some Failure.reading);
          cancelled = true;
          error = e;
        })
    fail_read-Inv {t} b e f inv = record {
      done = inv.done;
      taken = inv.taken;
      held = inv.held;
      all = inv.all;
      ran = inv.ran;
      processing =
          IsProcessing-overwrite handle t.processor inv.taken t.buffer t.turn b inv.processing;
      reading = is_reading inv Reading.reading f;
    }

    Step-Inv : {t u : Reciever S} → Step handle t u → Holds t → Holds u
    Step-Inv {t} (Step.test e c) inv =
        reader_turns t Reading.reading t.cancelled t.error inv (is_reading inv Reading.testing e)
    Step-Inv {t} (Step.stop_loop e f c) inv =
        reader_turns t (Reading.ended none) t.cancelled t.error inv
          (is_reading inv Reading.testing e)
    Step-Inv {t} (Step.stop_read e c) inv = reader_turns t _ t.cancelled _ inv tt
    Step-Inv (Step.read c junk cs e f l) inv = read-Inv c junk cs e f inv
    Step-Inv (Step.fail_read b e l) inv = fail_read-Inv b _ e inv
    Step-Inv (Step.send n e f) inv = send-Inv n e f inv
    Step-Inv {t} (Step.stop_send n e c) inv = reader_turns t _ t.cancelled _ inv tt
    Step-Inv (Step.finish w n e) inv =
        let x = Processing.processing w n in
        finish-Inv w n inv (is_processing inv x e) (ran_to inv x e)
    Step-Inv (Step.block w n e) inv = block-Inv w n e inv
    Step-Inv (Step.make_room w n e) inv =
        let x = Processing.blocked w n in
        finish-Inv w n inv (is_processing inv x e) (ran_to inv x e)
    Step-Inv (Step.close f e g) inv = close-Inv e inv
    Step-Inv {t} (Step.cancel c) inv = reader_turns t t.reader true t.error inv inv.reading

    pub Reach-Inv : {t : Reciever S} → Reach handle s₀ chunks t → Holds t
    Reach-Inv Reach.here = new_reciever-Inv handle s₀ chunks
    Reach-Inv (Reach.later r st) = Step-Inv st (Reach-Inv r)
