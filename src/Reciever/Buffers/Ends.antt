-- ===== src/Reciever/Buffers/Ends.antt =====
-- Every run of the two goroutines comes to an end: where both have returned, or where they wait for the
-- connection or for the sender's goroutine.
use framer.Base.{
  ℕ, suc, ◌+◌, ◌≤◌, ◌≡◌, ◌≢◌, ◌*◌, refl, sym, subst, Bytes, Bool, true, false, List, Option, none,
  some, length, arith, inl, inr, ◌⊎◌, Bool-cases, take,
}
use framer.Reciever.Framer.{Framer}
use framer.Reciever.Loop.{Result, Handler, process}
use framer.Reciever.Buffers.{Failure, Reading, Processing, Reciever, processed, Step, Reach}
use framer.Reciever.Buffers.Work.{work_left, Step-less}

module _ {S : Type 0} (handle : Handler S) where
  -- A goroutine that has ended has closed the channel, or the context is cancelled.
  abbrev IsStopping : Processing S → Reading → Bool → Type 0
  IsStopping (Processing.ended r) (Reading.ended e) c = Unit
  IsStopping (Processing.ended r) _ c = c ≡ true
  IsStopping _ r c = Unit

  IsStopping-ended :
      (x : Processing S) (e : Option Failure) (c : Bool) → IsStopping x (Reading.ended e) c
  IsStopping-ended Processing.idle e c = tt
  IsStopping-ended (Processing.processing w n) e c = tt
  IsStopping-ended (Processing.blocked w n) e c = tt
  IsStopping-ended (Processing.ended r) e c = tt

  IsStopping-cancelled : (x : Processing S) (r : Reading) → IsStopping x r true
  IsStopping-cancelled Processing.idle r = tt
  IsStopping-cancelled (Processing.processing w n) r = tt
  IsStopping-cancelled (Processing.blocked w n) r = tt
  IsStopping-cancelled (Processing.ended x) Reading.testing = refl
  IsStopping-cancelled (Processing.ended x) Reading.reading = refl
  IsStopping-cancelled (Processing.ended x) (Reading.sending n) = refl
  IsStopping-cancelled (Processing.ended x) (Reading.ended e) = tt

  -- A reader that goes on.
  IsStopping-on :
      (x : Processing S) (r r' : Reading) (c : Bool)
      → ((e : Option Failure) → r ≢ Reading.ended e)
      → IsStopping x r c
      → IsStopping x r' c
  IsStopping-on Processing.idle r r' c live h = tt
  IsStopping-on (Processing.processing w n) r r' c live h = tt
  IsStopping-on (Processing.blocked w n) r r' c live h = tt
  IsStopping-on (Processing.ended x) Reading.testing r' c live h =
      subst (IsStopping (Processing.ended x) r') (sym h)
        (IsStopping-cancelled (Processing.ended x) r')
  IsStopping-on (Processing.ended x) Reading.reading r' c live h =
      subst (IsStopping (Processing.ended x) r') (sym h)
        (IsStopping-cancelled (Processing.ended x) r')
  IsStopping-on (Processing.ended x) (Reading.sending n) r' c live h =
      subst (IsStopping (Processing.ended x) r') (sym h)
        (IsStopping-cancelled (Processing.ended x) r')
  IsStopping-on (Processing.ended x) (Reading.ended e) r' c live h = absurd (live e refl)

  abbrev IsSafe : Reciever S → Type 0
  IsSafe t = IsStopping t.processor t.reader t.cancelled

  processed-IsSafe :
      (r : Option (Result (S × Framer) S)) (t : Reciever S) → IsSafe (processed handle r t)
  unfolding processed
  processed-IsSafe (some (Result.ok (s, p))) t = tt
  processed-IsSafe (some (Result.err x s)) t =
      IsStopping-cancelled (Processing.ended (some (Result.err x s))) t.reader
  processed-IsSafe (some Result.panic) t =
      IsStopping-cancelled (Processing.ended (some Result.panic)) t.reader
  processed-IsSafe none t = IsStopping-cancelled (Processing.ended none) t.reader

  Step-IsSafe : {t u : Reciever S} → Step handle t u → IsSafe t → IsSafe u
  Step-IsSafe {t} (Step.test e c) h =
      IsStopping-on t.processor t.reader Reading.reading t.cancelled (λ x f. cc) h
  Step-IsSafe {t} (Step.stop_loop e f c) h = IsStopping-ended t.processor _ t.cancelled
  Step-IsSafe {t} (Step.stop_read e c) h = IsStopping-ended t.processor _ t.cancelled
  Step-IsSafe {t} (Step.read c junk cs e f l) h =
      IsStopping-on t.processor t.reader (Reading.sending (length c)) t.cancelled (λ x f. cc) h
  Step-IsSafe {t} (Step.fail_read b e l) h = IsStopping-ended t.processor _ true
  Step-IsSafe (Step.send n e f) h = tt
  Step-IsSafe {t} (Step.stop_send n e c) h = IsStopping-ended t.processor _ t.cancelled
  Step-IsSafe {t} (Step.finish w n e) h =
      processed-IsSafe (process handle t.framer t.state (take n (t.buffer w))) t
  Step-IsSafe (Step.block w n e) h = tt
  Step-IsSafe {t} (Step.make_room w n e) h =
      processed-IsSafe (process handle t.framer t.state (take n (t.buffer w))) t
  Step-IsSafe {t} (Step.close f e g) h =
      subst
        (λ r. IsStopping (Processing.ended (some (Result.ok (t.state, t.framer)))) r t.cancelled)
        (sym g) tt
  Step-IsSafe {t} (Step.cancel c) h = IsStopping-cancelled t.processor t.reader

  -- Both goroutines have returned.
  abbrev pub IsOver : Processing S → Reading → Type 0
  IsOver (Processing.ended r) (Reading.ended e) = Unit
  IsOver _ _ = ⊥

  -- A step that one of the two takes by itself. What the connection returns, how long
  -- `priorityFramesChan` is full and the cancellation from outside are not in their hands.
  abbrev pub IsOwn : {t u : Reciever S} → Step handle t u → Type 0
  IsOwn (Step.read c junk cs e f l) = ⊥
  IsOwn (Step.fail_read b e l) = ⊥
  IsOwn (Step.block w n e) = ⊥
  IsOwn (Step.make_room w n e) = ⊥
  IsOwn (Step.cancel c) = ⊥
  IsOwn _ = Unit

  -- The processors are not at work, and either the reader waits for the connection, or the processors
  -- for the sender's goroutine while the reader holds a read for them, the context not being cancelled,
  -- or has returned.
  abbrev pub IsWaiting : Processing S → Reading → Bool → Type 0
  IsWaiting (Processing.processing w n) r c = ⊥
  IsWaiting x Reading.reading c = Unit
  IsWaiting (Processing.blocked w n) (Reading.sending k) c = c ≡ false
  IsWaiting (Processing.blocked w n) (Reading.ended e) c = Unit
  IsWaiting _ _ c = ⊥

  module _ (t : Reciever S) where
    abbrev Moves : Type 0
    Moves = (u : Reciever S) × (st : Step handle t u) × IsOwn st

    testing_step : t.reader ≡ Reading.testing → Moves
    testing_step e = elim (Bool-cases t.cancelled) [
      | inl c ↦ (_, Step.stop_read e c, tt)
      | inr c ↦ (_, Step.test e c, tt)
    ]

    -- Where not both have returned and they wait for nothing outside, one of them can take a step.
    goes_on :
        (x : Processing S) (r : Reading)
        → t.processor ≡ x
        → t.reader ≡ r
        → IsStopping x r t.cancelled
        → IsOver x r ⊎ (Moves ⊎ IsWaiting x r t.cancelled)
    goes_on x Reading.testing e f h = inr (inl (testing_step f))
    goes_on (Processing.processing w k) Reading.reading e f h = inr (inl (_, Step.finish w k e, tt))
    goes_on (Processing.processing w k) (Reading.sending n) e f h =
        inr (inl (_, Step.finish w k e, tt))
    goes_on (Processing.processing w k) (Reading.ended y) e f h =
        inr (inl (_, Step.finish w k e, tt))
    goes_on Processing.idle Reading.reading e f h = inr (inr tt)
    goes_on Processing.idle (Reading.sending n) e f h = inr (inl (_, Step.send n f e, tt))
    goes_on Processing.idle (Reading.ended y) e f h = inr (inl (_, Step.close y e f, tt))
    goes_on (Processing.blocked w k) Reading.reading e f h = inr (inr tt)
    goes_on (Processing.blocked w k) (Reading.sending n) e f h = elim (Bool-cases t.cancelled) [
      | inl c ↦ inr (inl (_, Step.stop_send n f c, tt))
      | inr c ↦ inr (inr c)
    ]
    goes_on (Processing.blocked w k) (Reading.ended y) e f h = inr (inr tt)
    goes_on (Processing.ended z) Reading.reading e f h = inr (inr tt)
    goes_on (Processing.ended z) (Reading.sending n) e f h = inr (inl (_, Step.stop_send n f h, tt))
    goes_on (Processing.ended z) (Reading.ended y) e f h = inl tt

  module _ (s : S) (chunks : List Bytes) where
    -- How many steps a run has.
    pub steps : {t : Reciever S} → Reach handle s chunks t → ℕ
    steps Reach.here = 0
    steps (Reach.later r st) = suc (steps r)

    steps_left :
        {t : Reciever S} (r : Reach handle s chunks t)
        → steps r + work_left handle t ≤ 5 * length chunks + 4
    unfolding steps work_left
    steps_left Reach.here = omega arith
    steps_left (Reach.later r st) = omega (arith, steps_left r, Step-less handle st)

    Reach-IsSafe : {t : Reciever S} → Reach handle s chunks t → IsSafe t
    Reach-IsSafe Reach.here = tt
    Reach-IsSafe (Reach.later r st) = Step-IsSafe st (Reach-IsSafe r)

    -- Every run of the two goroutines, whatever the processors answer, whatever fails and whenever the
    -- context is cancelled, has at most five steps for each read of the connection and four more; and in
    -- every state that they reach both have returned, or one of them can take a step that does not need
    -- the connection, room in `priorityFramesChan` or a cancellation from outside, or they wait, with no
    -- processor at work: the reader for the connection, or the processors for the sender's goroutine
    -- while the reader holds a read for them, the context not being cancelled, or has returned.
    pub Reach-IsOver :
        {t : Reciever S} (r : Reach handle s chunks t)
        → (steps r ≤ 5 * length chunks + 4)
          × (IsOver t.processor t.reader
              ⊎ (((u : Reciever S) × (st : Step handle t u) × IsOwn st)
                  ⊎ IsWaiting t.processor t.reader t.cancelled))
    Reach-IsOver {t} r =
        (omega (arith, steps_left r), goes_on t t.processor t.reader refl refl (Reach-IsSafe r))
