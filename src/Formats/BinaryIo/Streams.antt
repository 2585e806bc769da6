-- ===== src/Formats/BinaryIo/Streams.antt =====
-- The first two loops of `ReadNext` on a stream that is cut into reads in any way.
use framer.Base.{
  ℕ, suc, ◌-◌, ◌<◌, ◌≤◌, ◌≡◌, ◌≢◌, refl, ap, ap₂, ◌∙◌, sym, Bytes, List, [], ◌∷◌, ◌++◌, map, concat,
  Option, some, none, true, false, leb, length, take, drop, All, append_assoc, length-append, arith,
  inl, inr, ◌⊎◌,
}
use framer.Formats.BinaryIo.{
  Reader, Outcome, IoError, SizeEnd, fill_size, sized, after_size, read_size, read_body,
}
use framer.Formats.BinaryIo.Decimal.{IsDigit, value, fill_size-digits, fill_nothing}

-- `Holds r s`: no read fails, and what the reader has and will read is `s`.
pub record Holds (r : Reader) (s : Bytes) : Type 0 where
  pub cuts : List Bytes
  pub succeed : r.reads ≡ map some cuts
  pub together : r.unprocessed ++ concat cuts ≡ s

append_end : (xs : Bytes) (y : ℕ) (ys : Bytes) → [] ≢ xs ++ y ∷ ys
append_end [] y ys e = cc
append_end (x ∷ xs) y ys e = cc

size_done :
    (acc a n : ℕ) (u : Bytes) (rs : List (Option Bytes))
    → fill_size acc u ≡ (a, n, SizeEnd.complete)
    → read_size acc u rs ≡ Outcome.ok a (after_size acc u rs)
unfolding read_size sized
size_done acc a n u [] run =
    ap (λ t. sized t (after_size acc u []) (Outcome.failed IoError.eof (after_size acc u []))) run
size_done acc a n u (none ∷ rs) run =
    ap
      (λ t.
        sized t (after_size acc u (none ∷ rs))
          (Outcome.failed IoError.read_failed (after_size acc u rs)))
      run
size_done acc a n u (some b ∷ rs) run =
    ap (λ t. sized t (after_size acc u (some b ∷ rs)) (read_size (fill_size acc u).0 b rs)) run

size_more :
    (acc a n : ℕ) (u b : Bytes) (rs : List (Option Bytes))
    → fill_size acc u ≡ (a, n, SizeEnd.unexpected_eof)
    → read_size acc u (some b ∷ rs) ≡ read_size a b rs
unfolding read_size sized
size_more acc a n u b rs run =
    ap (λ t. sized t (after_size acc u (some b ∷ rs)) (read_size (fill_size acc u).0 b rs)) run
    ∙ ap (λ t. read_size t.0 b rs) run

-- The size is read, whatever the cuts.
pub size_read :
    (acc : ℕ) (u : Bytes) (cuts : List Bytes) (ds rest : Bytes)
    → All IsDigit ds
    → u ++ concat cuts ≡ ds ++ 10 ∷ rest
    → (r : Reader) × (read_size acc u (map some cuts) ≡ Outcome.ok (value acc ds) r) × Holds r rest
size_read acc u [] ds rest d e = elim (fill_size-digits acc u [] ds rest d e) [
  | inl (ds', split, digits, total, run) ↦ absurd (append_end ds' 10 rest split)
  | inr (u', joined, run, left) ↦ (
    after_size acc u [],
    size_done acc (value acc ds) (suc (length ds)) u [] run,
    record {
      cuts = [];
      succeed = refl;
      together = ap (λ t. drop t.1 u ++ []) run ∙ ap (λ t. t ++ []) left ∙ joined;
    },
  )
]
size_read acc u (b ∷ bs) ds rest d e = elim (fill_size-digits acc u (b ++ concat bs) ds rest d e) [
  | inl (ds', split, digits, total, run) ↦
      let (r, ran, holds) = size_read (value acc u) b bs ds' rest digits split in
      (
        r,
        size_more acc (value acc u) (length u) u b (map some bs) run
            ∙ ran
            ∙ ap (λ t. Outcome.ok t r) total,
        holds,
      )
  | inr (u', joined, run, left) ↦ (
    after_size acc u (some b ∷ map some bs),
    size_done acc (value acc ds) (suc (length ds)) u (some b ∷ map some bs) run,
    record {
      cuts = b ∷ bs;
      succeed = refl;
      together =
          ap (λ t. drop t.1 u ++ (b ++ concat bs)) run
          ∙ ap (λ t. t ++ (b ++ concat bs)) left
          ∙ joined;
    },
  )
]

nil_left : (xs ys : Bytes) → xs ++ ys ≡ [] → (xs ≡ []) × (ys ≡ [])
nil_left [] ys e = (refl, e)
nil_left (x ∷ xs) ys e = cc

-- At the end of the stream there is no further size.
pub size_at_end :
    (acc : ℕ) (u : Bytes) (cuts : List Bytes)
    → u ++ concat cuts ≡ []
    → (r : Reader) × (read_size acc u (map some cuts) ≡ Outcome.failed IoError.eof r)
unfolding read_size sized
size_at_end acc u [] e =
    let run : fill_size acc u ≡ (acc, 0, SizeEnd.unexpected_eof) =
      ap (fill_size acc) (nil_left u [] e).0 ∙ fill_nothing acc in
    (
      after_size acc u [],
      ap (λ t. sized t (after_size acc u []) (Outcome.failed IoError.eof (after_size acc u [])))
          run,
    )
size_at_end acc u (b ∷ bs) e =
    let (here, after) = nil_left u (b ++ concat bs) e in
    let (r, ran) = size_at_end acc b bs after in
    let run : fill_size acc u ≡ (acc, 0, SizeEnd.unexpected_eof) =
      ap (fill_size acc) here ∙ fill_nothing acc in
    (r, size_more acc acc 0 u b (map some bs) run ∙ ran)

-- A piece of a stream holds all of a prefix of it, or lies within it.
prefix_cases :
    (u z p rest : Bytes)
    → u ++ z ≡ p ++ rest
    → ((length p ≤ length u) × (take (length p) u ≡ p) × (drop (length p) u ++ z ≡ rest))
      ⊎ ((length u < length p) × (p' : Bytes) × (p ≡ u ++ p') × (z ≡ p' ++ rest))
prefix_cases u z [] rest e = inl (omega arith, refl, e)
prefix_cases [] z (x ∷ p) rest e = inr (omega arith, x ∷ p, refl, e)
prefix_cases (b ∷ u) z (x ∷ p) rest e =
    let q : b ≡ x = cc in
    let t : u ++ z ≡ p ++ rest = cc in
    elim (prefix_cases u z p rest t) [
      | inl (fits, first, left) ↦ inl (omega arith, ap₂ ◌∷◌ q first, left)
      | inr (short, p', split, left) ↦ inr (omega arith, p', ap₂ ◌∷◌ (sym q) split, left)
    ]

body_done :
    (need : ℕ) (b u : Bytes) (rs : List (Option Bytes))
    → leb need (length u) ≡ true
    → read_body need b u rs
      ≡ Outcome.ok (b ++ take need u) (record { unprocessed = drop need u; reads = rs })
unfolding read_body
body_done need b u [] h = rw h refl
body_done need b u (none ∷ rs) h = rw h refl
body_done need b u (some c ∷ rs) h = rw h refl

body_more :
    (need : ℕ) (b u c : Bytes) (rs : List (Option Bytes))
    → leb need (length u) ≡ false
    → read_body need b u (some c ∷ rs) ≡ read_body (need - length u) (b ++ u) c rs
unfolding read_body
body_more need b u c rs h = rw h refl

-- The rest of a request is in the buffer.
body_fits :
    (b u : Bytes) (cuts : List Bytes) (p rest : Bytes)
    → length p ≤ length u
    → take (length p) u ≡ p
    → drop (length p) u ++ concat cuts ≡ rest
    → (r : Reader) × (read_body (length p) b u (map some cuts) ≡ Outcome.ok (b ++ p) r)
      × Holds r rest
body_fits b u cuts p rest fits first left =
    let r : Reader = record { unprocessed = drop (length p) u; reads = map some cuts } in
    (
      r,
      body_done (length p) b u (map some cuts) (ground arith)
          ∙ ap (λ t. Outcome.ok (b ++ t) r) first,
      record { cuts = cuts; succeed = refl; together = left },
    )

-- The bytes of a request are read, whatever the cuts.
pub body_read :
    (b u : Bytes) (cuts : List Bytes) (p rest : Bytes)
    → u ++ concat cuts ≡ p ++ rest
    → (r : Reader) × (read_body (length p) b u (map some cuts) ≡ Outcome.ok (b ++ p) r)
      × Holds r rest
body_read b u [] p rest e = elim (prefix_cases u [] p rest e) [
  | inl (fits, first, left) ↦ body_fits b u [] p rest fits first left
  | inr (short, p', split, left) ↦ absurd (
      omega (arith, ap length split, length-append u p', ap length (nil_left p' rest (sym left)).0))
]
body_read b u (c ∷ cs) p rest e = elim (prefix_cases u (c ++ concat cs) p rest e) [
  | inl (fits, first, left) ↦ body_fits b u (c ∷ cs) p rest fits first left
  | inr (short, p', split, left) ↦
      let need : length p - length u ≡ length p' =
        omega (arith, ap length split, length-append u p') in
      let (r, ran, holds) = body_read (b ++ u) c cs p' rest left in
      (
        r,
        body_more (length p) b u c (map some cs) (ground arith)
            ∙ ap (λ n. read_body n (b ++ u) c (map some cs)) need
            ∙ ran
            ∙ ap (λ t. Outcome.ok t r) (append_assoc b u p' ∙ ap (◌++◌ b) (sym split)),
        holds,
      )
]
