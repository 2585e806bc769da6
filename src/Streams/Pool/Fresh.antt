-- ===== src/Streams/Pool/Fresh.antt =====
-- What a request gets of the pool.
use framer.Base.{
  ℕ, ◌+◌, ◌<◌, ◌≡◌, refl, ap, ◌∙◌, List, ◌∷◌, Option, none, some, true, ◌==◌, ==_iff, ltb, length,
  get_elem?, get_elem?_lt, get_elem?-set_self, arith,
}
use framer.Streams.FlowControl.{reset}
use framer.Streams.Pool.{StreamImpl, StreamsPool, taken, fields_set, prepared, acquire}
use framer.Streams.Pool.Owners.{
  State, start, Reach, later, begins, count, IsOwned, one_if, length-prepared, Reach-IsOwned,
}
use framer.Utils.SlicePool

abbrev pub as_new : ℕ → ℕ → StreamImpl
as_new id n = record { stream_id = id; fc = record { n = n; ok = true } }

taken-window :
    (p : StreamsPool) (o : Option (ℕ × List ℕ))
    → ((taken p o).1).initial_window_size ≡ p.initial_window_size
unfolding taken
taken-window p none = refl
taken-window p (some (r, rest)) = refl

prepared-as_new :
    (id r : ℕ) (p : StreamsPool)
    → r < length p.streams
    → get_elem? ((prepared id (r, p)).1).streams r ≡ some (as_new id p.initial_window_size)
unfolding prepared fields_set reset
prepared-as_new id r p h =
    let (s, e) = get_elem?_lt p.streams r h in
    ap (λ o. get_elem? (fields_set p r id o) r) e
    ∙ get_elem?-set_self p.streams r (as_new id p.initial_window_size) h

-- Whatever requests began and ended before, the object that a new request gets is in no other
-- request's hands, and has the request's identifier and a full window that is not disabled.
pub acquire-fresh :
    (o : Option ℕ) (s : State) (id : ℕ)
    → Reach (start o) s
    → (count (acquire s.pool id).0 s.used ≡ 0)
      × (get_elem? ((acquire s.pool id).1).streams (acquire s.pool id).0
          ≡ some (as_new id (s.pool).initial_window_size))
acquire-fresh o s id reach = (ground (arith, once), fresh)
  where
    r : ℕ
    r = (acquire s.pool id).0

    t : State
    t = record { pool = (acquire s.pool id).1; used = r ∷ s.used }

    owned : IsOwned t
    owned = Reach-IsOwned o t (later reach (begins s id))

    same : (r == r) ≡ true
    same = (==_iff r r).1 refl

    once : count r (t.pool).pool + (1 + count r s.used) ≡ one_if (ltb r (length (t.pool).streams))
    once = unfold count in rw same at (owned.once r)

    inside : r < length (t.pool).streams
    inside = ground (arith, once)

    x : ℕ × StreamsPool
    x = taken s.pool (SlicePool.acquire (s.pool).pool)

    made : length (t.pool).streams ≡ length (x.1).streams
    made = unfold acquire in length-prepared id x.0 x.1

    fresh :
        get_elem? ((acquire s.pool id).1).streams (acquire s.pool id).0
        ≡ some (as_new id (s.pool).initial_window_size)
    fresh =
        unfold acquire in
        prepared-as_new id x.0 x.1 (unfold acquire in omega (arith, inside, made))
        ∙ ap (λ n. some (as_new id n)) (taken-window s.pool (SlicePool.acquire (s.pool).pool))
