-- ===== src/Streams/Store/Sharded.antt =====
-- The sharded store of sixteen, which `newLoader` builds, as an implementation of the interface: it
-- serves the odd identifiers, those of streams that a client opens.
use framer.Streams.Store.Map.{get-set_entry, get-delete, get_and_delete_lem}
use framer.Streams.Store.Interface.{StreamStore}
use framer.Base.{
  ℕ, zero, suc, ◌%◌, ◌<◌, ◌≡◌, ◌≢◌, sym, ap, ◌∙◌, List, [], ◌∷◌, Option, none, some, if◌then◌else◌,
  ◌==◌, arith, get_elem?, length, get_elem?-set_self, get_elem?-set_ne, bit_and, bit_and_fifteen,
  ℕ_discrete, of_some, ◌>>=◌, ◌+◌, refl,
}
use framer.Streams.Store.{
  ShardedStreamsMap, get, shard, put_shard, sharded_get, sharded_set, sharded_delete,
  sharded_get_and_delete, new_sharded, set_entry, delete, build_shards, get_and_delete,
}

abbrev pub IsOdd : ℕ → Type 0
IsOdd i = i % 2 ≡ 1

get_elem?_lt {ℓ} :
    {A : Type ℓ} (xs : List A) (i : ℕ) {a : A} → get_elem? xs i ≡ some a → i < length xs
get_elem?_lt [] i e = cc
get_elem?_lt (x ∷ xs) zero e = omega arith
get_elem?_lt (x ∷ xs) (suc i) e = omega (arith, get_elem?_lt xs i e)

module _ {V : Type 0} where
  -- Sixteen for a mask, and a shard at every odd place below it.
  pub record Built (s : ShardedStreamsMap V) : Type 0 where
    pub mask : s.max ≡ 15
    pub filled :
        (k : ℕ) → k < 16 → IsOdd k → (m : List (ℕ × V)) × (get_elem? s.shards k ≡ some (some m))

  -- The map that the shards make up.
  pub sharded_view : ShardedStreamsMap V → ℕ → Option V
  sharded_view s i = elim (shard s i) [ none ↦ none | some m ↦ get m i ]

  pub place : (s : ShardedStreamsMap V) (i : ℕ) → Built s → bit_and i s.max ≡ i % 16
  place s i b = ap (bit_and i) b.mask ∙ bit_and_fifteen i

  pub shard_lem :
      (s : ShardedStreamsMap V) (i : ℕ)
      → Built s
      → IsOdd i
      → (m : List (ℕ × V)) × (get_elem? s.shards (i % 16) ≡ some (some m)) × (shard s i ≡ some m)
  unfolding shard
  shard_lem s i b odd =
      let (m, e) = b.filled (i % 16) (omega arith) (omega arith) in (m, e, rw (place s i b, e))

  shard-put_same :
      (s : ShardedStreamsMap V) (i j : ℕ) (m m' : List (ℕ × V))
      → Built s
      → get_elem? s.shards (i % 16) ≡ some (some m)
      → i % 16 ≡ j % 16
      → shard (put_shard s i m') j ≡ some m'
  unfolding shard put_shard
  shard-put_same s i j m m' b e same = rw (
    place s i b,
    place s j b,
    ← same,
    get_elem?-set_self s.shards (i % 16) (some m') (get_elem?_lt s.shards (i % 16) e),
  )

  shard-put_other :
      (s : ShardedStreamsMap V) (i j : ℕ) (m' : List (ℕ × V))
      → Built s
      → i % 16 ≢ j % 16
      → shard (put_shard s i m') j ≡ shard s j
  unfolding shard put_shard
  shard-put_other s i j m' b diff =
      rw (place s i b, place s j b, get_elem?-set_ne s.shards (some m') diff)

  pub put_shard-Built :
      (s : ShardedStreamsMap V) (i : ℕ) (m m' : List (ℕ × V))
      → Built s
      → get_elem? s.shards (i % 16) ≡ some (some m)
      → Built (put_shard s i m')
  unfolding put_shard
  put_shard-Built s i m m' b e = record {
    mask = b.mask;
    filled = λ k h odd. elim (ℕ_discrete (i % 16) k) [
      | yes same ↦ (
        m',
        rw (place s i b, ← same)
            (get_elem?-set_self s.shards (i % 16) (some m') (get_elem?_lt s.shards (i % 16) e)),
      )
      | no diff ↦
          let (n, f) = b.filled k h odd in
          (n, rw (place s i b) (get_elem?-set_ne s.shards (some m') diff ∙ f))
    ];
  }

  -- A write to one shard is a write to the map.
  view-put_shard :
      (s : ShardedStreamsMap V) (i j : ℕ) (m m' : List (ℕ × V)) (x : Option V)
      → Built s
      → IsOdd i
      → IsOdd j
      → get_elem? s.shards (i % 16) ≡ some (some m)
      → shard s i ≡ some m
      → get m' j ≡ (if i == j then x else get m j)
      → sharded_view (put_shard s i m') j ≡ (if i == j then x else sharded_view s j)
  unfolding sharded_view
  view-put_shard s i j m m' x b oi oj e e' law = elim (ℕ_discrete (i % 16) (j % 16)) [
    | yes same ↦
        rw (shard-put_same s i j m m' b e same, sharded_view) (rw (found same, sharded_view) law)
    | no diff ↦ rw (shard-put_other s i j m' b diff, sharded_view) (ground (arith, distinct diff))
  ]
    where
      found : i % 16 ≡ j % 16 → shard s j ≡ some m
      found same =
          let (n, f, g) = shard_lem s j b oj in
          g ∙ ap some (of_some (of_some (sym f ∙ ap (get_elem? s.shards) (sym same) ∙ e)))

      distinct : i % 16 ≢ j % 16 → i ≢ j
      distinct d h = d (ap (λ k. k % 16) h)

  pub sharded_get_lem :
      (s : ShardedStreamsMap V) (i : ℕ)
      → Built s
      → IsOdd i
      → sharded_get s i ≡ some (sharded_view s i)
  unfolding sharded_get sharded_view
  sharded_get_lem s i b odd = let (m, e, f) = shard_lem s i b odd in rw (f, sharded_view)

  pub sharded_set_lem :
      (s : ShardedStreamsMap V) (i : ℕ) (v : V)
      → Built s
      → IsOdd i
      → (t : ShardedStreamsMap V) × (sharded_set s i v ≡ some t)
        × Built t
        × ((j : ℕ) → IsOdd j → sharded_view t j ≡ (if i == j then some v else sharded_view s j))
  unfolding sharded_set
  sharded_set_lem s i v b odd =
      let (m, e, f) = shard_lem s i b odd in
      (
        put_shard s i (set_entry m i v),
        ap (λ r. r >>= λ m. some (put_shard s i (set_entry m i v))) f,
        put_shard-Built s i m (set_entry m i v) b e,
        λ j oj.
            view-put_shard s i j m (set_entry m i v) (some v) b odd oj e f (get-set_entry m i j v),
      )

  pub sharded_delete_lem :
      (s : ShardedStreamsMap V) (i : ℕ)
      → Built s
      → IsOdd i
      → (t : ShardedStreamsMap V) × (sharded_delete s i ≡ some t)
        × Built t
        × ((j : ℕ) → IsOdd j → sharded_view t j ≡ (if i == j then none else sharded_view s j))
  unfolding sharded_delete
  sharded_delete_lem s i b odd =
      let (m, e, f) = shard_lem s i b odd in
      (
        put_shard s i (delete m i),
        ap (λ r. r >>= λ m. some (put_shard s i (delete m i))) f,
        put_shard-Built s i m (delete m i) b e,
        λ j oj. view-put_shard s i j m (delete m i) none b odd oj e f (get-delete m i j),
      )

  pub view_at :
      (s : ShardedStreamsMap V) (i : ℕ) (m : List (ℕ × V))
      → shard s i ≡ some m
      → sharded_view s i ≡ get m i
  unfolding sharded_view
  view_at s i m f = rw (f, sharded_view)

  pub sharded_get_and_delete_lem :
      (s : ShardedStreamsMap V) (i : ℕ)
      → Built s
      → IsOdd i
      → (t : ShardedStreamsMap V) × (sharded_get_and_delete s i ≡ some (sharded_view s i, t))
        × Built t
        × ((j : ℕ) → IsOdd j → sharded_view t j ≡ (if i == j then none else sharded_view s j))
  unfolding sharded_get_and_delete
  sharded_get_and_delete_lem s i b odd =
      let (m, e, f) = shard_lem s i b odd in
      let (a, c) = get_and_delete_lem m i in
      let m' = (get_and_delete m i).1 in
      (
        put_shard s i m',
        ap (λ r. r >>= λ m. some ((get_and_delete m i).0, put_shard s i (get_and_delete m i).1)) f
            ∙ ap (λ v. some (v, put_shard s i m')) (a ∙ sym (view_at s i m f)),
        put_shard-Built s i m m' b e,
        λ j oj. view-put_shard s i j m m' none b odd oj e f (c j),
      )

  build_shards-odd :
      (n k : ℕ) → k < n + n → IsOdd k → get_elem? (build_shards {V = V} n) k ≡ some (some [])
  unfolding build_shards
  build_shards-odd zero k h odd = absurd (omega arith)
  build_shards-odd (suc n) zero h odd = absurd (omega arith)
  build_shards-odd (suc n) (suc zero) h odd = refl
  build_shards-odd (suc n) (suc (suc k)) h odd = build_shards-odd n k (omega arith) (omega arith)

  pub new_sharded-Built : Built (new_sharded 16)
  unfolding new_sharded
  new_sharded-Built = record {
    mask = refl;
    filled = λ k h odd. ([], build_shards-odd 16 k (omega arith) odd);
  }

  -- A new store is empty.
  pub sharded_view-new : (j : ℕ) → IsOdd j → sharded_view (new_sharded 16) j ≡ none
  unfolding sharded_view new_sharded get
  sharded_view-new j odd =
      let (m, e, f) = shard_lem (new_sharded 16) j new_sharded-Built odd in
      let g = build_shards-odd 16 (j % 16) (omega arith) (omega arith) in
      rw (f, sharded_view) (rw (of_some (of_some (sym e ∙ g))))

-- `ShardedStreamsMap` serves the odd identifiers.
abbrev pub sharded_streams_map : (V : Type 0) → StreamStore V
sharded_streams_map V = record {
  Store = ShardedStreamsMap V;
  Served = IsOdd;
  IsBuilt = Built;
  view = sharded_view;
  get = sharded_get;
  set = sharded_set;
  delete = sharded_delete;
  get_and_delete = sharded_get_and_delete;
  get_lem = sharded_get_lem;
  set_lem = sharded_set_lem;
  delete_lem = sharded_delete_lem;
  get_and_delete_lem = sharded_get_and_delete_lem;
}
