-- ===== src/Reciever/Buffers/Tests.antt =====
-- Two reads of the connection: the processors are at work on the first while the second is in the other
-- buffer.
use framer.Base.{
  ℕ, ◌+◌, ◌-◌, ◌*◌, ◌≤◌, ◌≡◌, ◌⊎◌, refl, Bytes, List, [], ◌∷◌, ◌++◌, length, replicate,
}
use framer.Reciever.Framer.{new_framer}
use framer.Reciever.Loop.{Handler, Result, run}
use framer.Reciever.Buffers.{Which, Processing, Reciever, Step, Reach}
use framer.Reciever.Buffers.Invariant.{outcome}
use framer.Reciever.Buffers.Undisturbed.{IsIntact, IsDrained, Reach-undisturbed}
use framer.Reciever.Buffers.Ends.{steps, IsOver, IsOwn, IsWaiting, Reach-IsOver}

-- A handler that records how many bytes of payload it got.
abbrev counting : Handler ℕ
counting header payload incomplete n = Result.ok (length payload)

abbrev reads : List Bytes
reads = (0 ∷ 0 ∷ 2 ∷ []) ∷ (0 ∷ 1 ∷ 0 ∷ 0 ∷ 0 ∷ 3 ∷ 7 ∷ []) ∷ []

abbrev at_work : (t : Reciever ℕ) × Reach counting 0 reads t
at_work =
    let first =
      Reach.later (Reach.later Reach.here (Step.test refl refl))
        (Step.read (0 ∷ 0 ∷ 2 ∷ []) (replicate (2048 - 3) 9) _ refl refl refl) in
    let handed = Reach.later (Reach.later first (Step.send 3 refl refl)) (Step.test refl refl) in
    (
      _,
      Reach.later handed
          (Step.read (0 ∷ 1 ∷ 0 ∷ 0 ∷ 0 ∷ 3 ∷ 7 ∷ []) (replicate (2048 - 7) 9) _ refl refl refl),
    )

at_work_on : at_work.0.processor ≡ Processing.processing Which.buf1 3
at_work_on = refl

-- The sender's goroutine has returned: the processors meet a full channel, the context is cancelled, and
-- only the reader returns.
abbrev abandoned : (t : Reciever ℕ) × Reach counting 0 reads t
abandoned =
    let blocked = Reach.later at_work.1 (Step.block Which.buf1 3 refl) in
    let cancelled = Reach.later blocked (Step.cancel refl) in
    (_, Reach.later cancelled (Step.stop_send 7 refl refl))

abandoned_on :
    (abandoned.0.processor ≡ Processing.blocked Which.buf1 3)
    × IsWaiting counting abandoned.0.processor abandoned.0.reader abandoned.0.cancelled
abandoned_on = (refl, tt)

Reach-undisturbed_example :
    (done : List Bytes) × (rest : List Bytes) × (reads ≡ done ++ rest)
    × (run counting new_framer 0 done
        ≡ outcome counting at_work.0.processor at_work.0.state at_work.0.framer)
    × IsIntact counting at_work.0.processor rest at_work.0.buffer at_work.0.turn
    × IsDrained counting at_work.0.processor at_work.0.reader rest at_work.0.conn
Reach-undisturbed_example = Reach-undisturbed counting 0 reads at_work.1

Reach-IsOver_example :
    (steps counting 0 reads at_work.1 ≤ 5 * 2 + 4)
    × (IsOver counting at_work.0.processor at_work.0.reader
        ⊎ (((u : Reciever ℕ) × (st : Step counting at_work.0 u) × IsOwn counting st)
            ⊎ IsWaiting counting at_work.0.processor at_work.0.reader at_work.0.cancelled))
Reach-IsOver_example = Reach-IsOver counting 0 reads at_work.1
