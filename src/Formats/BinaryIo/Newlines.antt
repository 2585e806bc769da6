-- ===== src/Formats/BinaryIo/Newlines.antt =====
-- The third loop of `ReadNext`, on a stream that is cut into reads in any way.
use framer.Base.{
  ℕ, ◌≡◌, refl, ap, ◌∙◌, sym, subst, Bytes, List, [], ◌∷◌, ◌++◌, map, concat, some, ◌==◌, inl, inr,
  ◌⊎◌, Bool-cases,
}
use framer.Formats.BinaryIo.{Reader, Outcome, strip, stripped, skip_newlines}
use framer.Formats.BinaryIo.Streams.{Holds}

-- What `strip` leaves of a piece: nothing, or something that starts with no line break.
strip_cases :
    (u : Bytes)
    → ((strip u ≡ []) × ((z : Bytes) → strip (u ++ z) ≡ strip z))
      ⊎ ((c : ℕ) × (v : Bytes) × (strip u ≡ c ∷ v) × ((z : Bytes) → strip (u ++ z) ≡ c ∷ (v ++ z)))
strip_cases [] = inl (refl, λ z. refl)
strip_cases (b ∷ u) = elim (Bool-cases (b == 10)) [
  | inl e ↦ rw e (strip_cases u)
  | inr e ↦ rw e (inr (b, u, refl, λ z. refl))
]

-- The line breaks behind a request are skipped, whatever the cuts.
pub newlines_skipped :
    (u : Bytes) (cuts : List Bytes)
    → (r : Reader) × (skip_newlines u (map some cuts) ≡ Outcome.ok tt r)
      × Holds r (strip (u ++ concat cuts))
unfolding skip_newlines stripped
newlines_skipped u [] = elim (strip_cases u) [
  | inl (here, after) ↦ (
    record { unprocessed = []; reads = [] },
    ap (λ t. stripped t [] (Outcome.ok tt (record { unprocessed = []; reads = [] }))) here,
    record { cuts = []; succeed = refl; together = sym (after []) },
  )
  | inr (c, v, here, after) ↦ (
    record { unprocessed = c ∷ v; reads = [] },
    ap (λ t. stripped t [] (Outcome.ok tt (record { unprocessed = []; reads = [] }))) here,
    record { cuts = []; succeed = refl; together = sym (after []) },
  )
]
newlines_skipped u (b ∷ bs) = elim (strip_cases u) [
  | inl (here, after) ↦
      let (r, ran, holds) = newlines_skipped b bs in
      (
        r,
        ap (λ t. stripped t (some b ∷ map some bs) (skip_newlines b (map some bs))) here ∙ ran,
        subst (Holds r) (sym (after (b ++ concat bs))) holds,
      )
  | inr (c, v, here, after) ↦ (
    record { unprocessed = c ∷ v; reads = some b ∷ map some bs },
    ap (λ t. stripped t (some b ∷ map some bs) (skip_newlines b (map some bs))) here,
    record { cuts = b ∷ bs; succeed = refl; together = sym (after (b ++ concat bs)) },
  )
]
