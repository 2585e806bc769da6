-- ===== src/Formats/Converter/Invariant.antt =====
-- What holds of the converter in every state that it can reach.
use framer.Base.{
  ℕ, zero, suc, ◌+◌, ◌<◌, ◌≤◌, ◌≡◌, ◌≢◌, refl, sym, ap, ap₂, subst, ◌∙◌, List, [], ◌∷◌, ◌++◌, Bool,
  true, map, if◌then◌else◌, ◌==◌, ==_iff, arith, inl, inr, ◌⊎◌, Bool-cases, map-append,
}
use framer.Formats.Converter.{
  Job, ConvertItem, Reading, Converting, Status, System, update, converted, turn, start,
}
use framer.Formats.Converter.Slots.{slots}

module _ {M : Type 0} (J : Job M) where
  -- What the writer writes of the first messages, and the numbers of those that are not converted.
  unfoldable pub writes : ℕ → List M
  writes zero = []
  writes (suc k) =
      writes k
      ++ (if (converted J (J.message k)).convert_err
          then []
          else (converted J (J.message k)).message ∷ [])

  unfoldable pub failures : ℕ → List ℕ
  failures zero = []
  failures (suc k) =
      failures k ++ (if (converted J (J.message k)).convert_err then suc k ∷ [] else [])

  -- The items that go through a converter, and the queue before it.
  abbrev pub passing : Converting M → List M → List (ConvertItem M)
  passing Converting.idle q = map (converted J) q
  passing (Converting.sending x) q = x ∷ map (converted J) q
  passing Converting.ended q = []

  -- What the reader has in its hands is the next message.
  abbrev pub IsNext : Reading M → ℕ → Bool → Type 0
  IsNext Reading.idle i cancelled = Unit
  IsNext (Reading.sending m) i cancelled = (m ≡ J.message i) × (i < J.count)
  IsNext Reading.ended i cancelled = (cancelled ≡ true) ⊎ (i ≡ J.count)

  -- A converter has the messages of its channel that are read and not written, in order; one that
  -- has ended has none, or was stopped.
  abbrev pub IsPassing : Converting M → List M → List ℕ → Reading M → Bool → Type 0
  IsPassing Converting.ended q ks r cancelled =
      (cancelled ≡ true) ⊎ ((r ≡ Reading.ended) × (ks ≡ []))
  IsPassing c q ks r cancelled = passing c q ≡ map (λ k. converted J (J.message k)) ks

  -- What is written is what was to be written of the first messages.
  abbrev pub IsLogged : Status → ℕ → List M → List ℕ → Type 0
  IsLogged Status.failed i ms es = (k : ℕ) × (suc k ≡ i) × (ms ≡ writes k) × (es ≡ failures k)
  IsLogged _ i ms es = (ms ≡ writes i) × (es ≡ failures i)

  abbrev pub IsClosing : Status → ℕ → Converting M → Type 0
  IsClosing Status.finished n c = c ≡ Converting.ended
  IsClosing _ n c = (n ≡ 0) ⊎ (c ≡ Converting.ended)

  pub record Inv (s : System M) : Type 0 where
    pub gap : ℕ
    pub read : s.reader.i ≡ s.writer.i + gap
    pub within : s.reader.i ≤ J.count
    pub next : IsNext s.reader.reading s.reader.i s.cancelled
    pub pass :
        (j : ℕ)
        → j < J.threads
        → IsPassing
            (s.converter j)
            (s.queue j)
            (slots J.threads j s.writer.i gap)
            s.reader.reading
            s.cancelled
    pub logged : IsLogged s.writer.status s.writer.i s.writer.written s.writer.errors
    pub closing : IsClosing s.writer.status s.writer.closed_chans (s.converter (turn J s.writer.i))

  pub start-Inv : Inv (start J)
  unfolding slots writes failures
  start-Inv = record {
    gap = 0;
    read = omega arith;
    within = omega arith;
    next = tt;
    pass = λ j h. refl;
    logged = (refl, refl);
    closing = inl refl;
  }

  -- What a converter has does not depend on more than whether the reader has ended and on the context.
  pub IsPassing-mono :
      (c : Converting M) (q : List M) (ks : List ℕ) {r r' : Reading M} {b b' : Bool}
      → (b ≡ true → b' ≡ true)
      → (r ≡ Reading.ended → r' ≡ Reading.ended)
      → IsPassing c q ks r b
      → IsPassing c q ks r' b'
  IsPassing-mono Converting.idle q ks f g h = h
  IsPassing-mono (Converting.sending x) q ks f g h = h
  IsPassing-mono Converting.ended q ks f g (inl h) = inl (f h)
  IsPassing-mono Converting.ended q ks f g (inr (h, e)) = inr (g h, e)

  pub IsNext-mono :
      (r : Reading M) (i : ℕ) {b : Bool} (c : Bool)
      → (b ≡ true → c ≡ true)
      → IsNext r i b
      → IsNext r i c
  IsNext-mono Reading.idle i c f h = tt
  IsNext-mono (Reading.sending m) i c f h = h
  IsNext-mono Reading.ended i c f (inl h) = inl (f h)
  IsNext-mono Reading.ended i c f (inr h) = inr h

  -- One more message.
  pub IsPassing-snoc :
      (c : Converting M) (q : List M) (ks : List ℕ) (m : M) (k : ℕ) {r : Reading M} (r' : Reading M)
      (b : Bool)
      → m ≡ J.message k
      → r ≡ Reading.sending m
      → IsPassing c q ks r b
      → IsPassing c (q ++ m ∷ []) (ks ++ k ∷ []) r' b
  IsPassing-snoc Converting.idle q ks m k r' b e f h =
      map-append (converted J) q (m ∷ [])
      ∙ ap₂ (λ x y. x ++ converted J y ∷ []) h e
      ∙ sym (map-append (λ k. converted J (J.message k)) ks (k ∷ []))
  IsPassing-snoc (Converting.sending x) q ks m k r' b e f h =
      ap (◌∷◌ x) (map-append (converted J) q (m ∷ []))
      ∙ ap₂ (λ x y. x ++ converted J y ∷ []) h e
      ∙ sym (map-append (λ k. converted J (J.message k)) ks (k ∷ []))
  IsPassing-snoc Converting.ended q ks m k r' b e f (inl h) = inl h
  IsPassing-snoc Converting.ended q ks m k r' b e f (inr (h, g)) =
      let bad : Reading.sending m ≡ Reading.ended = sym f ∙ h in cc

  -- Nothing is left.
  pub none_left : (ks : List ℕ) → [] ≡ map (λ k. converted J (J.message k)) ks → ks ≡ []
  none_left [] h = refl
  none_left (k ∷ ks) h = cc

  -- A converter that has not ended may change, as long as the writer has seen no closed channel.
  IsClosing-other :
      (st : Status) (n : ℕ) (c c' : Converting M)
      → c ≢ Converting.ended
      → IsClosing st n c
      → IsClosing st n c'
  IsClosing-other Status.running n c c' h (inl k) = inl k
  IsClosing-other Status.running n c c' h (inr k) = absurd (h k)
  IsClosing-other Status.failed n c c' h (inl k) = inl k
  IsClosing-other Status.failed n c c' h (inr k) = absurd (h k)
  IsClosing-other Status.stopped n c c' h (inl k) = inl k
  IsClosing-other Status.stopped n c c' h (inr k) = absurd (h k)
  IsClosing-other Status.finished n c c' h k = absurd (h k)

  pub IsClosing-update :
      (st : Status) (n : ℕ) (f : ℕ → Converting M) (t w : ℕ) (c : Converting M)
      → f t ≢ Converting.ended
      → IsClosing st n (f w)
      → IsClosing st n (update f t c w)
  IsClosing-update st n f t w c h k = elim (Bool-cases (t == w)) [
    | inl p ↦
        let e : t ≡ w = (==_iff t w).0 p in
        rw p (IsClosing-other st n (f w) c (subst (λ x. f x ≢ Converting.ended) e h) k)
    | inr p ↦ rw p k
  ]

  IsClosing-ended :
      (st : Status) (n : ℕ) (c : Converting M) → IsClosing st n c → IsClosing st n Converting.ended
  IsClosing-ended Status.running n c k = inr refl
  IsClosing-ended Status.failed n c k = inr refl
  IsClosing-ended Status.stopped n c k = inr refl
  IsClosing-ended Status.finished n c k = refl

  -- A converter that ends.
  pub IsClosing-update_ended :
      (st : Status) (n : ℕ) (f : ℕ → Converting M) (t w : ℕ)
      → IsClosing st n (f w)
      → IsClosing st n (update f t Converting.ended w)
  IsClosing-update_ended st n f t w k = elim (Bool-cases (t == w)) [
    | inl p ↦ rw p (IsClosing-ended st n (f w) k)
    | inr p ↦ rw p k
  ]
