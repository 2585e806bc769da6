-- ===== src/Formats/Escape/Table.antt =====
-- The tables `lt` and `hex`, entry by entry, against the conditions that they stand for.
use framer.Base.{
  ℕ, zero, suc, ◌<◌, ◌+◌, ◌≡◌, refl, Option, none, some, Bool, true, false, ◌&&◌, not,
  if◌then◌else◌, ◌==◌, ==_iff, leb, ltb, get_elem?, arith, inl, inr, compare_cases, ◌∙◌, ap,
}
use framer.Formats.Escape.{hex, lt}

-- A test below a bound, number by number.
all_below : ℕ → (ℕ → Bool) → Bool
all_below zero f = true
all_below (suc n) f = f n && all_below n f

both : (a b : Bool) → (a && b) ≡ true → (a ≡ true) × (b ≡ true)
both true b h = (refl, h)
both false b h = cc

all_below_lem : (n : ℕ) (f : ℕ → Bool) → all_below n f ≡ true → (b : ℕ) → b < n → f b ≡ true
unfolding all_below
all_below_lem zero f h b l = absurd (omega arith)
all_below_lem (suc n) f h b l = elim (compare_cases b n) [
  | inl c ↦ all_below_lem n f (both (f n) (all_below n f) h).1 b c
  | inr (inl c) ↦ ap f c ∙ (both (f n) (all_below n f) h).0
  | inr (inr c) ↦ absurd (omega arith)
]

-- The bytes that stand for themselves between quotes, by the condition that `EscapeStringAppend`
-- gives in a comment: no control character, and none of `\`, `"`, `<`, `>` and `&`.
abbrev pub is_plain : ℕ → Bool
is_plain b =
    leb 32 b && not (b == 92) && not (b == 34) && not (b == 60) && not (b == 62) && not (b == 38)

abbrev same_bool : Bool → Bool → Bool
same_bool true b = b
same_bool false b = not b

same_bool_eq : (a b : Bool) → same_bool a b ≡ true → a ≡ b
same_bool_eq true true h = refl
same_bool_eq true false h = cc
same_bool_eq false true h = cc
same_bool_eq false false h = refl

abbrev holds : (Bool → Bool) → Option Bool → Bool
holds f none = false
holds f (some a) = f a

holds_eq : (o : Option Bool) (b : Bool) → holds (λ a. same_bool a b) o ≡ true → o ≡ some b
holds_eq none b h = cc
holds_eq (some a) b h = ap some (same_bool_eq a b h)

table_checked : all_below 128 (λ b. holds (λ a. same_bool a (is_plain b)) (get_elem? lt b)) ≡ true
unfolding all_below lt
table_checked = refl

-- Below 128 the table is the condition.
pub lt-plain : (b : ℕ) → b < 128 → get_elem? lt b ≡ some (is_plain b)
lt-plain b h = holds_eq (get_elem? lt b) (is_plain b) (
    all_below_lem 128 (λ b. holds (λ a. same_bool a (is_plain b)) (get_elem? lt b)) table_checked b
      h)

-- The digit of a number below 16.
abbrev pub digit : ℕ → ℕ
digit n = if ltb n 10 then 48 + n else 87 + n

abbrev is_number : ℕ → Option ℕ → Bool
is_number n none = false
is_number n (some a) = a == n

is_number_eq : (n : ℕ) (o : Option ℕ) → is_number n o ≡ true → o ≡ some n
is_number_eq n none h = cc
is_number_eq n (some a) h = ap some ((==_iff a n).0 h)

hex_checked : all_below 16 (λ n. is_number (digit n) (get_elem? hex n)) ≡ true
unfolding all_below
hex_checked = refl

pub hex-digit : (n : ℕ) → n < 16 → get_elem? hex n ≡ some (digit n)
hex-digit n h =
    is_number_eq (digit n) (get_elem? hex n)
      (all_below_lem 16 (λ n. is_number (digit n) (get_elem? hex n)) hex_checked n h)
