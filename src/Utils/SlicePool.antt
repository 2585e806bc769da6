-- ===== src/Utils/SlicePool.antt =====
-- utils/pool/pool.go: `SlicePool`, a stack of values that are not in use. Both methods hold the lock
-- throughout, so each is one step. The pool of loader/streams/pool takes from its slice the same way.
use framer.Base.{◌≡◌, refl, ap, List, [], ◌∷◌, ◌++◌, Option, none, some, ◌>>=◌}

module _ {ℓ} {A : Type ℓ} where
  -- `Acquire`: the last value and the slice without it, or nothing from an empty slice.
  unfoldable pub acquire : List A → Option (A × List A)
  acquire [] = none
  acquire (x ∷ []) = some (x, [])
  acquire (x ∷ y ∷ s) = acquire (y ∷ s) >>= λ r. some (r.0, x ∷ r.1)

  -- `Release`
  abbrev pub release : List A → A → List A
  release s v = s ++ v ∷ []

  pub acquire-release : (s : List A) (v : A) → acquire (release s v) ≡ some (v, s)
  unfolding acquire
  acquire-release [] v = refl
  acquire-release (x ∷ []) v = refl
  acquire-release (x ∷ y ∷ s) v =
      ap (λ o. o >>= λ r. some (r.0, x ∷ r.1)) (acquire-release (y ∷ s) v)

  -- What is taken, from a slice with a value, is the slice's last.
  pub acquire_last :
      (x : A) (s : List A)
      → (v : A) × (r : List A) × (acquire (x ∷ s) ≡ some (v, r)) × (x ∷ s ≡ release r v)
  unfolding acquire
  acquire_last x [] = (x, [], refl, refl)
  acquire_last x (y ∷ s) =
      let (v, r, e, shape) = acquire_last y s in
      (v, x ∷ r, ap (λ o. o >>= λ p. some (p.0, x ∷ p.1)) e, ap (◌∷◌ x) shape)
