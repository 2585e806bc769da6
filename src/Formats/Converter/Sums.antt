-- ===== src/Formats/Converter/Sums.antt =====
-- Sums over the goroutines of the converter.
use framer.Base.{
  ℕ, zero, suc, ◌+◌, ◌<◌, ◌≡◌, ◌≢◌, refl, ap₂, true, false, ◌==◌, ==_iff, arith, inl, inr,
  Bool-cases,
}
use framer.Formats.Converter.{update}

-- A sum over the goroutines.
unfoldable pub total : ℕ → (ℕ → ℕ) → ℕ
total zero f = 0
total (suc n) f = total n f + f n

total_same : (n : ℕ) (f g : ℕ → ℕ) → ((k : ℕ) → k < n → f k ≡ g k) → total n f ≡ total n g
unfolding total
total_same zero f g h = refl
total_same (suc n) f g h = ap₂ ◌+◌ (total_same n f g (λ k l. h k (omega arith))) (h n (omega arith))

-- Two sums that differ at one goroutine.
pub total_other :
    (n : ℕ) (f g : ℕ → ℕ) (i : ℕ)
    → i < n
    → ((k : ℕ) → i ≢ k → f k ≡ g k)
    → total n g + f i ≡ total n f + g i
unfolding total
total_other zero f g i l h = absurd (omega arith)
total_other (suc n) f g i l h = elim (Bool-cases (i == n)) [
  | inl p ↦
      let e : i ≡ n = (==_iff i n).0 p in
      let s : total n f ≡ total n g = total_same n f g (λ k m. h k (λ q. omega arith)) in
      rw e (omega (arith, s))
  | inr p ↦
      let m : i < n = ground arith in omega (arith, total_other n f g i m h, h n (λ q. omega arith))
]

pub update_self {ℓ} : {A : Type ℓ} (f : ℕ → A) (i : ℕ) (a : A) → update f i a i ≡ a
update_self f i a = let e : (i == i) ≡ true = (==_iff i i).1 refl in rw e refl

pub update_other {ℓ} :
    {A : Type ℓ} (f : ℕ → A) (i : ℕ) (a : A) (k : ℕ) → i ≢ k → update f i a k ≡ f k
update_other f i a k h = let e : (i == k) ≡ false = ground arith in rw e refl
