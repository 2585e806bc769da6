-- ===== src/Reciever/Buffers/Invariant.antt =====
-- What holds of the two goroutines in every state that they can reach.
use framer.Base.{
  ℕ, ◌≡◌, refl, sym, ap, ap₂, ◌∙◌, Bytes, List, [], ◌∷◌, ◌++◌, Option, none, some, take, inl, inr,
  ◌⊎◌,
}
use framer.Reciever.Framer.{Framer, new_framer}
use framer.Reciever.Loop.{Error, Result, Handler, process, run}
use framer.Reciever.Buffers.{Which, Failure, Reading, Processing, Reciever, other, new_reciever}

module _ {S : Type 0} where
  process-cases :
      (r : Option (Result (S × Framer) S))
      → ((s : S) × (q : Framer) × (r ≡ some (Result.ok (s, q))))
        ⊎ (((e : Error) × (s : S) × (r ≡ some (Result.err e s)))
            ⊎ ((r ≡ some Result.panic) ⊎ (r ≡ none)))
  process-cases (some (Result.ok (s, q))) = inl (s, q, refl)
  process-cases (some (Result.err e s)) = inr (inl (e, s, refl))
  process-cases (some Result.panic) = inr (inr (inl refl))
  process-cases none = inr (inr (inr refl))

  abbrev state_of : Option (Result (S × Framer) S) → S × Framer → S × Framer
  state_of (some (Result.ok x)) y = x
  state_of _ y = y

  same_state :
      (p : Framer) (s : S) (q : Framer) (t : S)
      → ◌≡◌ {A = Option (Result (S × Framer) S)} (some (Result.ok (s, p))) (some (Result.ok (t, q)))
      → (p ≡ q) × (s ≡ t)
  same_state p s q t e =
      let f : ◌≡◌ {A = S × Framer} (s, p) (t, q) = ap (λ r. state_of r (s, p)) e in
      (ap (λ x. x.1) f, ap (λ x. x.0) f)

module _ {S : Type 0} (handle : Handler S) where
  -- One buffer more.
  pub run-snoc :
      (p : Framer) (s : S) (bs : List Bytes) (c : Bytes) {t : S} {q : Framer}
      → run handle p s bs ≡ some (Result.ok (t, q))
      → run handle p s (bs ++ c ∷ []) ≡ process handle q t c
  unfolding run
  run-snoc p s [] c {t} {q} e =
      let here : run handle p s (c ∷ []) ≡ process handle p s c =
        elim (process-cases (process handle p s c)) [
          | inl (s', q', o) ↦ rw (o, run)
          | inr (inl (x, s', o)) ↦ rw (o, run)
          | inr (inr (inl o)) ↦ rw (o, run)
          | inr (inr (inr o)) ↦ rw (o, run)
        ] in
      let (f, g) = same_state p s q t e in here ∙ ap₂ (λ p s. process handle p s c) f g
  run-snoc p s (b ∷ bs) c {t} {q} e = elim (process-cases (process handle p s b)) [
    | inl (s', q', o) ↦
        rw (o, run)
          (run-snoc q' s' bs c
            (let f : run handle p s (b ∷ bs) ≡ run handle q' s' bs = rw (o, run) in sym f ∙ e))
    | inr (inl (x, s', o)) ↦
        let f : run handle p s (b ∷ bs) ≡ some (Result.err x s') = rw (o, run) in absurd (cc (f, e))
    | inr (inr (inl o)) ↦
        let f : run handle p s (b ∷ bs) ≡ some Result.panic = rw (o, run) in absurd (cc (f, e))
    | inr (inr (inr o)) ↦ let f : run handle p s (b ∷ bs) ≡ none = rw (o, run) in absurd (cc (f, e))
  ]

  -- What is handed over is in the buffer.
  abbrev pub IsHolding : (Which → Bytes) → Which → ℕ → List Bytes → Type 0
  IsHolding buffer w n held = (c : Bytes) × (held ≡ c ∷ []) × (take n (buffer w) ≡ c)

  -- What the reader holds: nothing, or what it read last. When the context has stopped it, what it
  -- held is lost.
  abbrev pub IsReading : Reading → List Bytes → (Which → Bytes) → Which → Type 0
  IsReading (Reading.sending n) held buffer turn = IsHolding buffer turn n held
  IsReading (Reading.ended (some Failure.context)) held buffer turn = Unit
  IsReading _ held buffer turn = held ≡ []

  -- What the processor holds, which is in the buffer that the reader does not write to.
  abbrev pub IsProcessing : Processing S → List Bytes → (Which → Bytes) → Which → Type 0
  IsProcessing (Processing.processing w n) held buffer turn =
      (w ≡ other turn) × IsHolding buffer w n held
  IsProcessing (Processing.blocked w n) held buffer turn =
      (w ≡ other turn) × IsHolding buffer w n held
  IsProcessing _ held buffer turn = held ≡ []

  -- What the processor came to up to now.
  abbrev pub outcome : Processing S → S → Framer → Option (Result (S × Framer) S)
  outcome (Processing.ended r) s p = r
  outcome _ s p = some (Result.ok (s, p))

  module _ (s₀ : S) (chunks : List Bytes) where
    pub record Inv (t : Reciever S) : Type 0 where
      pub done : List Bytes
      pub taken : List Bytes
      pub held : List Bytes
      pub all : chunks ≡ done ++ (taken ++ (held ++ t.conn))
      pub ran : run handle new_framer s₀ done ≡ outcome t.processor t.state t.framer
      pub processing : IsProcessing t.processor taken t.buffer t.turn
      pub reading : IsReading t.reader held t.buffer t.turn

    pub new_reciever-Inv : Inv (new_reciever handle s₀ chunks)
    unfolding run
    new_reciever-Inv = record {
      done = [];
      taken = [];
      held = [];
      all = refl;
      ran = refl;
      processing = refl;
      reading = refl;
    }
