-- ===== src/Streams/Pool/Owners.antt =====
-- Who has a stream object: the pool or one request, never two.
use framer.Base.{
  ℕ, ◌+◌, ◌%◌, ◌≡◌, refl, sym, ap, ◌∙◌, List, [], ◌∷◌, ◌++◌, Option, none, some, Bool,
  if◌then◌else◌, ◌==◌, ltb, length, length-append, length-set, get_elem?, arith, u32_mod, of_some,
  ◌⊎◌, inl, inr,
}
use framer.Streams.FlowControl.{new_flow_control}
use framer.Streams.Pool.{
  StreamImpl, StreamsPool, new_streams_pool, taken, fields_set, prepared, acquire, release,
}
use framer.Utils.SlicePool

unfoldable pub count : ℕ → List ℕ → ℕ
count r [] = 0
count r (x ∷ xs) = (if x == r then 1 else 0) + count r xs

count-append : (r : ℕ) (xs ys : List ℕ) → count r (xs ++ ys) ≡ count r xs + count r ys
unfolding count
count-append r [] ys = omega arith
count-append r (x ∷ xs) ys = omega (arith, count-append r xs ys)

-- The pool, and the objects that requests have.
pub record State : Type 0 where
  pub pool : StreamsPool
  pub used : List ℕ

-- A request acquires an object, or ends with one that it has.
pub data Step : State → State → Type 0 where
  begins :
      (s : State) (id : ℕ)
      → Step s (record { pool = (acquire s.pool id).1; used = (acquire s.pool id).0 ∷ s.used })
  ends :
      (s : State) (r : ℕ) (before behind : List ℕ)
      → s.used ≡ before ++ r ∷ behind
      → Step s (record { pool = release s.pool r; used = before ++ behind })

pub data Reach (s : State) : State → Type 0 where
  here : Reach s s
  later : {t u : State} → Reach s t → Step t u → Reach s u

abbrev pub one_if : Bool → ℕ
one_if b = if b then 1 else 0

pub record IsOwned (s : State) : Type 0 where
  -- each object that was made is in the pool or with a request, once
  pub once :
      (r : ℕ) → count r (s.pool).pool + count r s.used ≡ one_if (ltb r (length (s.pool).streams))
  pub counted : (s.pool).in_use ≡ length s.used % u32_mod

-- What a slice gives: nothing, or its last.
slice_cases :
    (xs : List ℕ)
    → ((xs ≡ []) × (SlicePool.acquire xs ≡ none))
      ⊎ ((v : ℕ) × (r : List ℕ) × (SlicePool.acquire xs ≡ some (v, r))
          × (xs ≡ SlicePool.release r v))
slice_cases [] = inl (refl, unfold SlicePool.acquire in refl)
slice_cases (x ∷ xs) = inr (SlicePool.acquire_last x xs)

length-fields_set :
    (p : StreamsPool) (r id : ℕ) (o : Option StreamImpl)
    → length (fields_set p r id o) ≡ length p.streams
unfolding fields_set
length-fields_set p r id none = refl
length-fields_set p r id (some s) = length-set p.streams r _

pub length-prepared :
    (id r : ℕ) (p : StreamsPool) → length ((prepared id (r, p)).1).streams ≡ length p.streams
unfolding prepared
length-prepared id r p = length-fields_set p r id (get_elem? p.streams r)

-- The state after a request has its object, by what the slice gave.
abbrev begun : State → ℕ → Option (ℕ × List ℕ) → State
begun s id o = let x = prepared id (taken s.pool o) in record { pool = x.1; used = x.0 ∷ s.used }

abbrev new_stream : StreamsPool → StreamImpl
new_stream p = record { stream_id = 0; fc = new_flow_control p.initial_window_size }

begun-IsOwned :
    (s : State) (id : ℕ) (o : Option (ℕ × List ℕ))
    → SlicePool.acquire (s.pool).pool ≡ o
    → IsOwned s
    → IsOwned (begun s id o)
unfolding count prepared taken
begun-IsOwned s id none e w = elim (slice_cases (s.pool).pool) [
  | inl (shape, _) ↦ record {
    once = λ r.
        rw (length-prepared id (length (s.pool).streams) (taken s.pool none).1)
          (rw (length-append (s.pool).streams (new_stream s.pool ∷ [])) (ground (arith, w.once r)));
    counted = omega (arith, w.counted);
  }
  | inr (v, r, e', shape) ↦ cc
]
begun-IsOwned s id (some (v, rest)) e w = elim (slice_cases (s.pool).pool) [
  | inl (shape, e') ↦ cc
  | inr (v', r', e', shape) ↦
      let pair : (λ (x : ℕ × List ℕ). x) (v', r') ≡ (v, rest) = of_some (sym e' ∙ e) in
      let shape' : (s.pool).pool ≡ rest ++ v ∷ [] =
        shape ∙ ap (λ x. SlicePool.release x.1 x.0) pair in
      record {
        once = λ r.
            rw (length-prepared id v (taken s.pool (some (v, rest))).1)
              (ground (arith, w.once r, ap (count r) shape', count-append r rest (v ∷ [])));
        counted = omega (arith, w.counted);
      }
]

Step-IsOwned : {s t : State} → Step s t → IsOwned s → IsOwned t
unfolding acquire
Step-IsOwned (begins s id) w = begun-IsOwned s id (SlicePool.acquire (s.pool).pool) refl w
Step-IsOwned (ends s x before behind shape) w = ended
  where
    ended : IsOwned (record { pool = release s.pool x; used = before ++ behind })
    ended =
        unfold release count in
        record {
          once = λ r. ground (
            arith,
            w.once r,
            ap (count r) shape,
            count-append r (s.pool).pool (x ∷ []),
            count-append r before (x ∷ behind),
            count-append r before behind,
          );
          counted = omega (
            arith,
            w.counted,
            ap length shape,
            length-append before (x ∷ behind),
            length-append before behind,
          );
        }

abbrev pub start : Option ℕ → State
start o = record { pool = new_streams_pool o; used = [] }

pub Reach-IsOwned : (o : Option ℕ) (s : State) → Reach (start o) s → IsOwned s
unfolding count
Reach-IsOwned o _ here = record { once = λ r. ground arith; counted = omega arith }
Reach-IsOwned o _ (later {t} r st) = Step-IsOwned st (Reach-IsOwned o t r)
