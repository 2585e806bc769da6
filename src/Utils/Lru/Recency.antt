-- ===== src/Utils/Lru/Recency.antt =====
-- The cache holds the strings that were used last, each once.
use framer.Base.{
  ℕ, zero, suc, ◌≤◌, ◌<◌, ◌≡◌, refl, sym, ap, ap₂, ◌==◌, ==_iff, ◌∙◌, subst, Bytes, List, [], ◌∷◌,
  some, Bool, true, false, ◌||◌, if◌then◌else◌, leb, leb→le, of_some, ltb, length, take, take_all,
  length-take, arith, inl, inr, Bool-cases,
}
use framer.Datasource.Middleware.{eq_bytes}
use framer.Utils.Lru.{Lru, has, unlink, drop_back, get_or_add, new_lru}

-- The strings of a list that differ from one.
abbrev pub without : Bytes → List Bytes → List Bytes
without k [] = []
without k (x ∷ xs) = if eq_bytes x k then without k xs else x ∷ without k xs

-- The strings of a history, which has the last use first, by their last use.
abbrev pub recent : List Bytes → List Bytes
recent [] = []
recent (k ∷ h) = k ∷ without k (recent h)

-- The cache after the uses of a history.
pub after_uses : Lru → List Bytes → Lru
after_uses l [] = l
after_uses l (k ∷ h) = (get_or_add (after_uses l h) k).1

Distinct : List Bytes → Type 0
Distinct [] = Unit {0}
Distinct (x ∷ xs) = (has x xs ≡ false) × Distinct xs

either_false : (a b : Bool) → (a || b) ≡ false → (a ≡ false) × (b ≡ false)
either_false true b h = cc
either_false false b h = (refl, h)

both_false : {a b : Bool} → a ≡ false → b ≡ false → (a || b) ≡ false
both_false p q = rw (p, q) refl

pub same_bytes : (a b : Bytes) → eq_bytes a b ≡ true → a ≡ b
same_bytes [] [] h = refl
same_bytes [] (y ∷ b) h = cc
same_bytes (x ∷ a) [] h = cc
same_bytes (x ∷ a) (y ∷ b) h = elim (Bool-cases (x == y)) [
  | inl e ↦ ap₂ ◌∷◌ ((==_iff x y).0 e) (same_bytes a b (rw e at h))
  | inr e ↦ let bad : false ≡ true = rw e at h in cc
]

without_absent : (k : Bytes) (xs : List Bytes) → has k xs ≡ false → without k xs ≡ xs
without_absent k [] h = refl
without_absent k (x ∷ xs) h =
    let (p, q) = either_false (eq_bytes x k) (has k xs) h in
    rw p (ap (◌∷◌ x) (without_absent k xs q))

has-without_self : (k : Bytes) (xs : List Bytes) → has k (without k xs) ≡ false
has-without_self k [] = refl
has-without_self k (x ∷ xs) = elim (Bool-cases (eq_bytes x k)) [
  | inl e ↦ rw e (has-without_self k xs)
  | inr e ↦ rw e (both_false e (has-without_self k xs))
]

has-without : (k y : Bytes) (xs : List Bytes) → has y xs ≡ false → has y (without k xs) ≡ false
has-without k y [] h = refl
has-without k y (x ∷ xs) h =
    let (p, q) = either_false (eq_bytes x y) (has y xs) h in
    elim (Bool-cases (eq_bytes x k)) [
      | inl e ↦ rw e (has-without k y xs q)
      | inr e ↦ rw e (both_false p (has-without k y xs q))
    ]

without-Distinct : (k : Bytes) (xs : List Bytes) → Distinct xs → Distinct (without k xs)
unfolding Distinct
without-Distinct k [] h = tt
without-Distinct k (x ∷ xs) h = elim (Bool-cases (eq_bytes x k)) [
  | inl e ↦ rw e (without-Distinct k xs h.1)
  | inr e ↦ rw e (has-without k x xs h.0, without-Distinct k xs h.1)
]

recent-Distinct : (h : List Bytes) → Distinct (recent h)
unfolding Distinct
recent-Distinct [] = tt
recent-Distinct (k ∷ h) =
    (has-without_self k (recent h), without-Distinct k (recent h) (recent-Distinct h))

-- A string among the first ones.
unlink-take :
    (n : ℕ) (k : Bytes) (xs : List Bytes)
    → Distinct xs
    → has k (take (suc n) xs) ≡ true
    → unlink k (take (suc n) xs) ≡ take n (without k xs)
unfolding Distinct
unlink-take n k [] d h = cc
unlink-take zero k (x ∷ xs) d h = elim (Bool-cases (eq_bytes x k)) [
  | inl e ↦ rw e refl
  | inr e ↦ let bad : false ≡ true = rw e at h in cc
]
unlink-take (suc n) k (x ∷ xs) d h = elim (Bool-cases (eq_bytes x k)) [
  | inl e ↦
      let absent : has k xs ≡ false = subst (λ y. has y xs ≡ false) (same_bytes x k e) d.0 in
      rw e (ap (take (suc n)) (sym (without_absent k xs absent)))
  | inr e ↦ rw e (ap (◌∷◌ x) (unlink-take n k xs d.1 (rw e at h)))
]

-- A string that is not among the first ones.
take-without :
    (n : ℕ) (k : Bytes) (xs : List Bytes)
    → has k (take (suc n) xs) ≡ false
    → take n (without k xs) ≡ take n xs
take-without n k [] h = refl
take-without zero k (x ∷ xs) h = refl
take-without (suc n) k (x ∷ xs) h =
    let (p, q) = either_false (eq_bytes x k) (has k (take (suc n) xs)) h in
    rw p (ap (◌∷◌ x) (take-without n k xs q))

drop_back-take :
    (n : ℕ) (xs : List Bytes) → suc n ≤ length xs → drop_back (take (suc n) xs) ≡ take n xs
drop_back-take n [] h = absurd (omega arith)
drop_back-take zero (x ∷ xs) h = refl
drop_back-take (suc n) (x ∷ []) h = absurd (omega arith)
drop_back-take (suc n) (x ∷ y ∷ xs) h = ap (◌∷◌ x) (drop_back-take n (y ∷ xs) (omega arith))

abbrev holding : ℕ → List Bytes → Lru
holding max xs = record { max_size = max; list = take max xs }

full_or_not :
    (n : ℕ) (xs : List Bytes)
    → (if leb (suc n) (length (take (suc n) xs))
        then drop_back (take (suc n) xs)
        else take (suc n) xs)
      ≡ take n xs
full_or_not n xs = elim (Bool-cases (leb (suc n) (length (take (suc n) xs)))) [
  | inl e ↦
      let m : suc n ≤ length xs = omega (arith, leb→le _ _ e, length-take (suc n) xs) in
      rw e (drop_back-take n xs m)
  | inr e ↦
      let few : length (take (suc n) xs) < suc n = ground arith in
      let m : length xs ≤ n = omega (arith, few, length-take (suc n) xs) in
      rw e (take_all (suc n) xs (omega (arith, m)) ∙ sym (take_all n xs m))
]

get_or_add-holding :
    (n : ℕ) (k : Bytes) (xs : List Bytes)
    → Distinct xs
    → get_or_add (holding (suc n) xs) k ≡ (k, holding (suc n) (k ∷ without k xs))
unfolding get_or_add
get_or_add-holding n k xs d = elim (Bool-cases (has k (take (suc n) xs))) [
  | inl e ↦
      rw (e, get_or_add)
        (ap (λ l. (k, record { max_size = suc n; list = k ∷ l })) (unlink-take n k xs d e))
  | inr e ↦
      rw (e, get_or_add)
        (ap (λ l. (k, record { max_size = suc n; list = k ∷ l }))
          (full_or_not n xs ∙ sym (take-without n k xs e)))
]

uses_from :
    (n : ℕ) (h : List Bytes) → after_uses (holding (suc n) []) h ≡ holding (suc n) (recent h)
unfolding after_uses
uses_from n [] = refl
uses_from n (k ∷ h) =
    ap (λ l. (get_or_add l k).1) (uses_from n h)
    ∙ ap (λ t. t.1) (get_or_add-holding n k (recent h) (recent-Distinct h))

-- From a new cache, after any uses, the cache holds the strings that were used last, each once, the
-- last use first, and at most as many as its size; and a use returns the string itself.
pub get_or_add-recent :
    (max : ℕ) (l : Lru) (h : List Bytes) (k : Bytes)
    → new_lru max ≡ some l
    → (get_or_add (after_uses l h) k
        ≡ (k, record { max_size = max; list = take max (recent (k ∷ h)) }))
unfolding new_lru
get_or_add-recent zero l h k e = cc
get_or_add-recent (suc n) l h k e =
    let many : ltb (suc n) 1 ≡ false = ground arith in
    let started : new_lru (suc n) ≡ some (holding (suc n) []) = rw (many, new_lru) refl in
    let fresh : l ≡ holding (suc n) [] = of_some (sym e ∙ started) in
    ap (λ c. get_or_add (after_uses c h) k) fresh
    ∙ ap (λ c. get_or_add c k) (uses_from n h)
    ∙ get_or_add-holding n k (recent h) (recent-Distinct h)
