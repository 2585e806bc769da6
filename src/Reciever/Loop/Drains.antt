-- ===== src/Reciever/Loop/Drains.antt =====
-- One buffer: the calls that `process` makes do not depend on the processors, and the pieces of
-- payload that they get are those of whole frames.
use framer.Base.{
  ℕ, zero, suc, ◌<◌, ◌≡◌, refl, ◌∙◌, Bytes, List, [], ◌∷◌, some, Bool, true, false, length, arith,
  ◌⊎◌, inl, inr, Option, ◌++◌,
}
use framer.Reciever.Framer.{Framer, Status, next}
use framer.Reciever.Loop.{Result, Handler, rounds, after_next, Error}

-- One call of a processor.
pub record Event : Type 0 where
  pub header : Bytes
  pub fragment : Bytes
  pub incomplete : Bool

module _ {ℓ} {S : Type ℓ} where
  -- The processors called on a list of events, up to the first error.
  unfoldable pub feed : Handler S → S → List Event → Result S S
  feed handle s [] = Result.ok s
  feed handle s (e ∷ es) = elim (handle e.header e.fragment e.incomplete s) [
    | Result.ok s' ↦ feed handle s' es
    | Result.err x s' ↦ Result.err x s'
    | Result.panic ↦ Result.panic
  ]

  -- The result of the processors, with the framer as the buffers left it.
  abbrev pub with_framer : Framer → Result S S → Result (S × Framer) S
  with_framer q (Result.ok s) = Result.ok (s, q)
  with_framer q (Result.err e s) = Result.err e s
  with_framer q Result.panic = Result.panic

-- The calls of `Next` on one buffer, and the events that they give.
pub data Drains : Framer → List Event → Framer → Type 0 where
  head_only : (p q : Framer) → next p ≡ some ([], Status.header_incomplete, q) → Drains p [] q
  open_end :
      (p : Framer) (b : Bytes) (q : Framer)
      → next p ≡ some (b, Status.payload_incomplete, q)
      → Drains p (record { header = q.header; fragment = b; incomplete = true } ∷ []) q
  clean_end :
      (p : Framer) (b : Bytes) (q : Framer)
      → next p ≡ some (b, Status.frame_done_buf_empty, q)
      → Drains p (record { header = q.header; fragment = b; incomplete = false } ∷ []) q
  more :
      (p : Framer) (b : Bytes) (q : Framer) (es : List Event) (r : Framer)
      → next p ≡ some (b, Status.frame_done, q)
      → length q.buf < length p.buf
      → Drains q es r
      → Drains p (record { header = q.header; fragment = b; incomplete = false } ∷ es) r

pub Result-cases {ℓ} :
    {S : Type ℓ} (r : Result S S)
    → ((s : S) × (r ≡ Result.ok s))
      ⊎ (((e : Error) × (s : S) × (r ≡ Result.err e s)) ⊎ (r ≡ Result.panic))
Result-cases (Result.ok s) = inl (s, refl)
Result-cases (Result.err e s) = inr (inl (e, s, refl))
Result-cases Result.panic = inr (inr refl)

module _ {ℓ} {S : Type ℓ} (handle : Handler S) where
  rounds_step :
      (n : ℕ) (p : Framer) (s : S) {b : Bytes} {st : Status} {q : Framer}
      → next p ≡ some (b, st, q)
      → rounds handle (suc n) p s ≡ after_next handle (rounds handle n) s b st q
  unfolding rounds
  rounds_step n p s e = rw (e, rounds)

  module _ (again : Framer → S → Option (Result (S × Framer) S)) (s : S) (b : Bytes)
      (q : Framer) where
    open_lem :
        after_next handle again s b Status.payload_incomplete q
        ≡ some (
            with_framer q
              (feed handle s (record { header = q.header; fragment = b; incomplete = true } ∷ [])))
    unfolding after_next feed
    open_lem = ground (arith, Result-cases (handle q.header b true s))

    clean_lem :
        after_next handle again s b Status.frame_done_buf_empty q
        ≡ some (
            with_framer q
              (feed handle s (record { header = q.header; fragment = b; incomplete = false } ∷ [])))
    unfolding after_next feed
    clean_lem = ground (arith, Result-cases (handle q.header b false s))

    more_lem :
        (es : List Event) (r : Framer)
        → ((s' : S) → again q s' ≡ some (with_framer r (feed handle s' es)))
        → after_next handle again s b Status.frame_done q
          ≡ some (
              with_framer r (
                feed handle s
                  (record { header = q.header; fragment = b; incomplete = false } ∷ es)))
    unfolding after_next feed
    more_lem es r ih = elim (Result-cases (handle q.header b false s)) [
      | inl (s', o) ↦ rw (o, after_next, feed) (ih s')
      | inr (inl (x, s', o)) ↦ rw (o, after_next, feed)
      | inr (inr o) ↦ rw (o, after_next, feed)
    ]

  -- With enough fuel the loop is the processors called on those events.
  pub rounds-Drains :
      (n : ℕ) (p : Framer) (s : S) (es : List Event) (q : Framer)
      → length p.buf < n
      → Drains p es q
      → rounds handle n p s ≡ some (with_framer q (feed handle s es))
  rounds-Drains zero p s es q h d = absurd (omega arith)
  rounds-Drains (suc n) p s es q h (head_only _ _ e) =
      rounds_step n p s e ∙ unfold after_next feed in refl
  rounds-Drains (suc n) p s es q h (open_end _ b _ e) =
      rounds_step n p s e ∙ open_lem (rounds handle n) s b q
  rounds-Drains (suc n) p s es q h (clean_end _ b _ e) =
      rounds_step n p s e ∙ clean_lem (rounds handle n) s b q
  rounds-Drains (suc n) p s es q h (more _ b r fs _ e less d) =
      rounds_step n p s e
      ∙ more_lem (rounds handle n) s b r fs q (λ s'. rounds-Drains n r s' fs q (omega arith) d)

  -- The events that follow a result.
  abbrev pub then_feed : List Event → Result S S → Result S S
  then_feed fs (Result.ok t) = feed handle t fs
  then_feed fs (Result.err e t) = Result.err e t
  then_feed fs Result.panic = Result.panic

  pub feed-append :
      (s : S) (es fs : List Event) → feed handle s (es ++ fs) ≡ then_feed fs (feed handle s es)
  unfolding feed
  feed-append s [] fs = refl
  feed-append s (e ∷ es) fs = elim (Result-cases (handle e.header e.fragment e.incomplete s)) [
    | inl (s', o) ↦ rw (o, feed) (feed-append s' es fs)
    | inr (inl (x, s', o)) ↦ rw (o, feed)
    | inr (inr o) ↦ rw (o, feed)
  ]
