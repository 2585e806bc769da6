-- ===== src/Reciever/Processors/Windows.antt =====
-- Flow control on the receiving side: what is announced to the server of the data that came in.
use framer.Base.{
  zero, dec_lt, length-drop, ℕ, suc, ◌+◌, ◌≤◌, ◌<◌, ◌≡◌, refl, ◌∙◌, ap, Bytes, List, [], ◌∷◌, ◌++◌,
  length, length-set, set, take, drop, arith, All,
}
use framer.Streams.Store.Interface.{StreamStore}
use framer.Reciever.World.{World, Effect, emit, send_frame}
use framer.Reciever.Processors.{
  DataFrameProcessor, new_data, window_update_min_value, write_increment, count_data,
}
use framer.Reciever.Processors.BigEndian.{big_endian}

-- The increment that a window update announces: the last four of its thirteen bytes.
abbrev pub number_of : Bytes → ℕ
number_of (a ∷ b ∷ c ∷ d ∷ []) = big_endian a b c d
number_of _ = 0

abbrev pub increment_of : {V : Type 0} → Effect V → ℕ
increment_of (Effect.send_frame f) = number_of (drop 9 f)
increment_of _ = 0

-- The sum of the increments in a trace.
pub announced : {V : Type 0} → List (Effect V) → ℕ
announced [] = 0
announced (e ∷ es) = increment_of e + announced es

announced_one : {V : Type 0} (e : Effect V) → announced (e ∷ []) ≡ increment_of e + 0
unfolding announced
announced_one e = refl

announced-append :
    {V : Type 0} (es fs : List (Effect V)) → announced (es ++ fs) ≡ announced es + announced fs
unfolding announced
announced-append [] fs = omega arith
announced-append (e ∷ es) fs = omega (arith, announced-append es fs)

pub sum : List ℕ → ℕ
sum [] = 0
sum (n ∷ ns) = n + sum ns

-- Thirteen bytes that begin with the header of a WINDOW_UPDATE frame for the connection.
pub record IsUpdate (f : Bytes) : Type 0 where
  pub size : length f ≡ 13
  pub header : take 9 f ≡ 0 ∷ 0 ∷ 4 ∷ 8 ∷ 0 ∷ 0 ∷ 0 ∷ 0 ∷ 0 ∷ []

module _ {ℓ} {A : Type ℓ} where
  drop-set :
      (n k m : ℕ) (xs : List A) (v : A) → m ≡ n + k → drop n (set xs m v) ≡ set (drop n xs) k v
  drop-set zero k m xs v e = let h : m ≡ k = omega arith in rw h
  drop-set (suc n) k zero xs v e = absurd (omega arith)
  drop-set (suc n) k (suc m) [] v e = refl
  drop-set (suc n) k (suc m) (x ∷ xs) v e = drop-set n k m xs v (omega arith)

  take-set : (n m : ℕ) (xs : List A) (v : A) → n ≤ m → take n (set xs m v) ≡ take n xs
  take-set zero m xs v h = refl
  take-set (suc n) zero xs v h = absurd (omega arith)
  take-set (suc n) (suc m) [] v h = refl
  take-set (suc n) (suc m) (x ∷ xs) v h = ap (◌∷◌ x) (take-set n m xs v (omega arith))

four_written :
    (xs : Bytes) (p q r s : ℕ)
    → length xs ≡ 4
    → set (set (set (set xs 0 p) 1 q) 2 r) 3 s ≡ p ∷ q ∷ r ∷ s ∷ []
four_written [] p q r s e = absurd (omega arith)
four_written (_ ∷ []) p q r s e = absurd (omega arith)
four_written (_ ∷ _ ∷ []) p q r s e = absurd (omega arith)
four_written (_ ∷ _ ∷ _ ∷ []) p q r s e = absurd (omega arith)
four_written (a ∷ b ∷ c ∷ d ∷ []) p q r s e = refl
four_written (_ ∷ _ ∷ _ ∷ _ ∷ _ ∷ xs) p q r s e = absurd (omega arith)

module _ (f : Bytes) (p q r s : ℕ) where
  abbrev written : Bytes
  written = set (set (set (set f 9 p) 10 q) 11 r) 12 s

  length-written : length written ≡ length f
  length-written = simp length-set

  take-written : take 9 written ≡ take 9 f
  take-written =
      take-set 9 12 _ s (omega arith)
      ∙ take-set 9 11 _ r (omega arith)
      ∙ take-set 9 10 _ q (omega arith)
      ∙ take-set 9 9 f p (omega arith)

  drop-written : length f ≡ 13 → drop 9 written ≡ p ∷ q ∷ r ∷ s ∷ []
  drop-written h =
      drop-set 9 3 12 _ s refl
      ∙ ap (λ xs. set xs 3 s)
          (drop-set 9 2 11 _ r refl
            ∙ ap (λ xs. set xs 2 r)
                (drop-set 9 1 10 _ q refl ∙ ap (λ xs. set xs 1 q) (drop-set 9 0 9 f p refl)))
      ∙ four_written (drop 9 f) p q r s (omega (arith, length-drop 9 f))

write_increment-IsUpdate : (f : Bytes) (acc : ℕ) → IsUpdate f → IsUpdate (write_increment f acc)
unfolding write_increment
write_increment-IsUpdate f acc v = record {
  size = length-written f _ _ _ _ ∙ v.size;
  header = take-written f _ _ _ _ ∙ v.header;
}

number_of-write_increment :
    (f : Bytes) (acc : ℕ)
    → IsUpdate f
    → acc < 4294967296
    → number_of (drop 9 (write_increment f acc)) ≡ acc
unfolding write_increment
number_of-write_increment f acc v h = ap number_of (drop-written f _ _ _ _ v.size) ∙ omega arith

-- Both slices are window updates, and what is not announced yet is less than the threshold.
pub record Counting (p : DataFrameProcessor) : Type 0 where
  pub current : IsUpdate p.current_window_update_frame
  pub next : IsUpdate p.next_window_update_frame
  pub below : p.window_update_acc < window_update_min_value

module _ {V : Type 0} (S : StreamStore V) where
  count_below :
      (p : DataFrameProcessor) (w : World S) (n : ℕ)
      → p.window_update_acc + n < window_update_min_value
      → count_data S p w n ≡ (record p { window_update_acc = p.window_update_acc + n }, w)
  unfolding count_data
  count_below p w n h = ground arith

  count_above :
      (p : DataFrameProcessor) (w : World S) (n : ℕ)
      → window_update_min_value ≤ p.window_update_acc + n
      → count_data S p w n ≡ (
        record {
          current_window_update_frame = p.next_window_update_frame;
          next_window_update_frame =
              write_increment p.current_window_update_frame (p.window_update_acc + n);
          window_update_acc = 0;
        },
        emit S
            (send_frame (write_increment p.current_window_update_frame (p.window_update_acc + n)))
            w,
      )
  unfolding count_data
  count_above p w n h = ground arith

  -- One DATA frame of `n` bytes is added to the sum of what is announced and what waits.
  abbrev Conserved : DataFrameProcessor → World S → ℕ → DataFrameProcessor × World S → Type 0
  Conserved p w n r =
      Counting r.0
      × (announced (r.1).trace + (r.0).window_update_acc
          ≡ announced w.trace + p.window_update_acc + n)

  count_data-Conserved :
      (p : DataFrameProcessor) (w : World S) (n : ℕ)
      → n < 16777216
      → Counting p
      → Conserved p w n (count_data S p w n)
  count_data-Conserved p w n small c =
      elim (dec_lt (p.window_update_acc + n) window_update_min_value) [
        | yes less ↦
            rw (count_below p w n less)
              (record { current = c.current; next = c.next; below = less }, omega arith)
        | no more ↦ rw (count_above p w n (omega arith)) (
          record {
            current = c.next;
            next = write_increment-IsUpdate _ _ c.current;
            below = omega arith;
          },
          sent,
        )
      ]
    where
      frame : Bytes
      frame = write_increment p.current_window_update_frame (p.window_update_acc + n)

      sent :
          announced (w.trace ++ (send_frame frame) ∷ []) + 0
          ≡ announced w.trace + p.window_update_acc + n
      sent =
          let bound : p.window_update_acc + n < 4294967296 = omega (arith, c.below) in
          omega (
            arith,
            announced-append w.trace (send_frame frame ∷ []),
            number_of-write_increment p.current_window_update_frame (p.window_update_acc + n)
                c.current bound,
            announced_one {V = V} (send_frame frame),
          )

  -- The processor on the lengths of the DATA frames that came in, one after the other.
  abbrev pub count_all : DataFrameProcessor → World S → List ℕ → DataFrameProcessor × World S
  count_all p w [] = (p, w)
  count_all p w (n ∷ ns) = count_all (count_data S p w n).0 (count_data S p w n).1 ns

  -- No credit is lost or made up: after any DATA frames (of lengths below 2^24) the increments of
  -- the window updates sent and what is still to be announced add up to the lengths of the frames,
  -- and what is still to be announced is below the threshold of a quarter of the window.
  pub windows_conserved :
      (p : DataFrameProcessor) (w : World S) (ns : List ℕ)
      → All (λ n. n < 16777216) ns
      → Counting p
      → Counting (count_all p w ns).0
        × (announced (count_all p w ns).1.trace + (count_all p w ns).0.window_update_acc
            ≡ announced w.trace + p.window_update_acc + sum ns)
  unfolding sum
  windows_conserved p w [] h c = (c, omega arith)
  windows_conserved p w (n ∷ ns) h c =
      let (d, e) = count_data-Conserved p w n h.0 c in
      let (d', e') = windows_conserved (count_data S p w n).0 (count_data S p w n).1 ns h.1 d in
      (d', omega (arith, e, e'))

pub new_data-Counting : Counting new_data
new_data-Counting = record {
  current = record { size = refl; header = refl };
  next = record { size = refl; header = refl };
  below = omega arith;
}
