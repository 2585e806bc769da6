-- ===== src/Streams/Store/Each.antt =====
-- The streams that `Each` of the sharded store visits, after any history of calls.
use framer.Base.{
  ℕ, zero, suc, ◌+◌, ◌%◌, ◌≡◌, refl, sym, subst, ap, ◌∙◌, List, Option, some, arith, get_elem?,
  ◌>>=◌, of_some,
}
use framer.Streams.Store.{
  ShardedStreamsMap, set_entry, delete, get_and_delete, new_sharded, build_shards, put_shard,
  sharded_set, sharded_delete, sharded_get_and_delete, sharded_each,
}
use framer.Streams.Store.Sharded.{
  IsOdd, Built, sharded_view, place, shard_lem, put_shard-Built, view_at, new_sharded-Built,
}
use framer.Streams.Store.Keyed.{
  with_id, found, IsKeyed, IsShards, IsShards-set, IsShards-get, set_entry-IsKeyed, delete-IsKeyed,
  get_and_delete-IsKeyed, each_shard-Listed,
}

module _ {V : Type 0} (id : V → ℕ) where
  -- The stores that come from a new one by calls on odd identifiers, each stream being stored under its
  -- own.
  pub data Reached : ShardedStreamsMap V → Type 0 where
    new : Reached (new_sharded 16)
    sets :
        {s t : ShardedStreamsMap V} (v : V)
        → Reached s
        → IsOdd (id v)
        → sharded_set s (id v) v ≡ some t
        → Reached t
    deletes :
        {s t : ShardedStreamsMap V} (i : ℕ)
        → Reached s
        → IsOdd i
        → sharded_delete s i ≡ some t
        → Reached t
    gets_and_deletes :
        {s t : ShardedStreamsMap V} (i : ℕ) (o : Option V)
        → Reached s
        → IsOdd i
        → sharded_get_and_delete s i ≡ some (o, t)
        → Reached t

  pub record Keyed (s : ShardedStreamsMap V) : Type 0 where
    pub built : Built s
    pub shards : IsShards id 0 s.shards

  build_shards-IsShards : (n p : ℕ) → IsShards id p (build_shards n)
  unfolding build_shards
  build_shards-IsShards zero p = tt
  build_shards-IsShards (suc n) p = (tt, build_shards-IsShards n (suc (suc p)))

  module _ (s : ShardedStreamsMap V) (k : Keyed s) (i : ℕ) (odd : IsOdd i) where
    -- A write to a shard that keeps it keyed.
    put_shard-Keyed :
        (m m' : List (ℕ × V))
        → get_elem? s.shards (i % 16) ≡ some (some m)
        → IsKeyed id (i % 16) m'
        → Keyed (put_shard s i m')
    unfolding put_shard
    put_shard-Keyed m m' e h = record {
      built = put_shard-Built s i m m' k.built e;
      shards =
          let f : i % 16 ≡ i % 16 + 0 = omega arith in
          rw (place s i k.built) (
            IsShards-set id 0 s.shards (i % 16) m' (omega (arith, odd))
              (subst (λ x. IsKeyed id x m') f h) k.shards);
    }

    shard-IsKeyed :
        (m : List (ℕ × V)) → get_elem? s.shards (i % 16) ≡ some (some m) → IsKeyed id (i % 16) m
    shard-IsKeyed m e =
        let f : i % 16 + 0 ≡ i % 16 = omega arith in
        subst (λ x. IsKeyed id x m) f
          (IsShards-get id 0 s.shards (i % 16) m (omega (arith, odd)) e k.shards)

    sharded_set-Keyed :
        (v : V) {t : ShardedStreamsMap V} → id v ≡ i → sharded_set s i v ≡ some t → Keyed t
    unfolding sharded_set
    sharded_set-Keyed v g e =
        let (m, f, h) = shard_lem s i k.built odd in
        subst Keyed
          (of_some (sym (ap (λ r. r >>= λ m. some (put_shard s i (set_entry m i v))) h) ∙ e))
          (put_shard-Keyed m (set_entry m i v) f
            (set_entry-IsKeyed id (i % 16) m i v refl g (shard-IsKeyed m f)))

    sharded_delete-Keyed : {t : ShardedStreamsMap V} → sharded_delete s i ≡ some t → Keyed t
    unfolding sharded_delete
    sharded_delete-Keyed e =
        let (m, f, h) = shard_lem s i k.built odd in
        subst Keyed (of_some (sym (ap (λ r. r >>= λ m. some (put_shard s i (delete m i))) h) ∙ e))
          (put_shard-Keyed m (delete m i) f (delete-IsKeyed id (i % 16) m i (shard-IsKeyed m f)))

    sharded_get_and_delete-Keyed :
        {o : Option V} {t : ShardedStreamsMap V}
        → sharded_get_and_delete s i ≡ some (o, t)
        → Keyed t
    unfolding sharded_get_and_delete
    sharded_get_and_delete-Keyed {o} {t} e =
        let (m, f, h) = shard_lem s i k.built odd in
        let g : ◌≡◌ {A = Option V × ShardedStreamsMap V}
            ((get_and_delete m i).0, put_shard s i (get_and_delete m i).1) (o, t) =
          of_some (
            sym (
              ap
                (λ r.
                  r >>= λ m. some ((get_and_delete m i).0, put_shard s i (get_and_delete m i).1))
                h)
            ∙ e) in
        subst Keyed (ap (λ x. x.1) g) (
          put_shard-Keyed m (get_and_delete m i).1 f
            (get_and_delete-IsKeyed id (i % 16) m i (shard-IsKeyed m f)))

  pub Reached-Keyed : {s : ShardedStreamsMap V} → Reached s → Keyed s
  unfolding new_sharded
  Reached-Keyed Reached.new = record {
    built = new_sharded-Built;
    shards = build_shards-IsShards 16 0;
  }
  Reached-Keyed (Reached.sets {s} v r odd e) =
      sharded_set-Keyed s (Reached-Keyed r) (id v) odd v refl e
  Reached-Keyed (Reached.deletes {s} i r odd e) = sharded_delete-Keyed s (Reached-Keyed r) i odd e
  Reached-Keyed (Reached.gets_and_deletes {s} i o r odd e) =
      sharded_get_and_delete-Keyed s (Reached-Keyed r) i odd e

  -- `Each` does not panic, and visits the stream of an identifier once, if the store has it.
  pub sharded_each-found :
      {s : ShardedStreamsMap V}
      → Reached s
      → (vs : List V) × (sharded_each s ≡ some vs)
        × ((i : ℕ) → IsOdd i → with_id id i vs ≡ found id (sharded_view s i))
  unfolding sharded_each
  sharded_each-found {s} r =
      let k = Reached-Keyed r in
      let l = each_shard-Listed id 0 s.shards k.shards in
      (
        l.streams,
        l.listed,
        λ i odd.
            let (m, e, f) = shard_lem s i k.built odd in
            l.there i (i % 16) m (omega (arith, odd)) (omega arith) e
            ∙ ap (found id) (sym (view_at s i m f)),
      )
