-- ===== src/Formats/Converter/Slots.antt =====
-- The messages of one channel: the numbers in a range that leave one remainder.
use framer.Base.{
  ℕ, zero, suc, ◌+◌, ◌%◌, ◌≡◌, refl, ap, List, [], ◌∷◌, ◌++◌, true, false, if◌then◌else◌, ◌==◌,
  arith, inl, inr, Bool-cases,
}

module _ (threads j : ℕ) where
  -- Those of the `n` numbers from `lo` on.
  unfoldable pub slots : ℕ → ℕ → List ℕ
  slots lo zero = []
  slots lo (suc n) = if lo % threads == j then lo ∷ slots (suc lo) n else slots (suc lo) n

  -- One more number at the end.
  pub slots-snoc :
      (lo n : ℕ)
      → slots lo (suc n) ≡ slots lo n ++ (if (lo + n) % threads == j then (lo + n) ∷ [] else [])
  unfolding slots
  slots-snoc lo zero = let e : lo + 0 ≡ lo = omega arith in rw e refl
  slots-snoc lo (suc n) =
      let e : lo + suc n ≡ suc lo + n = omega arith in
      elim (Bool-cases (lo % threads == j)) [
        | inl p ↦ rw (p, e) (ap (◌∷◌ lo) (slots-snoc (suc lo) n))
        | inr p ↦ rw (p, e) (slots-snoc (suc lo) n)
      ]

  -- One number less at the start.
  pub slots_first :
      (lo n : ℕ) → (lo % threads == j) ≡ true → slots lo (suc n) ≡ lo ∷ slots (suc lo) n
  unfolding slots
  slots_first lo n p = rw p refl

  pub slots_skip : (lo n : ℕ) → (lo % threads == j) ≡ false → slots lo (suc n) ≡ slots (suc lo) n
  unfolding slots
  slots_skip lo n p = rw p refl
