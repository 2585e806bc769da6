-- ===== src/Streams/Store.antt =====
-- loader/streams/store/store.go: stores of open streams, keyed by stream identifier. Every method of
-- `StreamsMap` holds the store's lock from its first line to its last, so it is one step, and is the
-- method of the unlocked map below it. `none` is a panic.
pub mod Map
pub mod Interface
pub mod Sharded
pub mod Trace
pub mod Refines
pub mod Keyed
pub mod Each
mod Tests
use framer.Base.{
  ℕ, zero, suc, ◌+◌, ◌-◌, List, [], ◌∷◌, ◌++◌, Option, none, some, if◌then◌else◌, ◌==◌, get_elem?,
  set, bit_and, ◌>>=◌, ltb,
}

module _ {ℓ} {V : Type ℓ} where
  -- `map[uint32]types.Stream`: at most one entry for each key, in no order that matters.
  -- `m[id]`, with `none` for the nil of a missing key
  unfoldable pub get : List (ℕ × V) → ℕ → Option V
  get [] id = none
  get ((k, v) ∷ m) id = if k == id then some v else get m id

  -- `m[id] = stream`
  unfoldable pub set_entry : List (ℕ × V) → ℕ → V → List (ℕ × V)
  set_entry [] id v = (id, v) ∷ []
  set_entry ((k, w) ∷ m) id v = if k == id then (k, v) ∷ m else (k, w) ∷ set_entry m id v

  -- `delete(m, id)`
  unfoldable pub delete : List (ℕ × V) → ℕ → List (ℕ × V)
  delete [] id = []
  delete ((k, w) ∷ m) id = if k == id then delete m id else (k, w) ∷ delete m id

  -- `GetAndDelete` of the map
  unfoldable pub get_and_delete : List (ℕ × V) → ℕ → Option V × List (ℕ × V)
  get_and_delete m id = elim (get m id) [ some v ↦ (some v, delete m id) | none ↦ (none, m) ]

  -- `Each`: the streams that the function is called on.
  unfoldable pub each : List (ℕ × V) → List V
  each [] = []
  each ((k, v) ∷ m) = v ∷ each m

-- `ShardedStreamsMap`: a nil shard is `none`.
pub record ShardedStreamsMap {ℓ} (V : Type ℓ) : Type ℓ where
  pub shards : List (Option (List (ℕ × V)))
  pub max : ℕ

module _ {ℓ} {V : Type ℓ} where
  -- `make([]types.StreamStore, size*2)` with `build()` at the odd places.
  pub build_shards : ℕ → List (Option (List (ℕ × V)))
  build_shards zero = []
  build_shards (suc n) = none ∷ some [] ∷ build_shards n

  -- `NewShardedStreamsMap`; `size - 1` wraps at 0 in the source, and 16 is the only size in use.
  unfoldable pub new_sharded : ℕ → ShardedStreamsMap V
  unfolding build_shards
  new_sharded size = record { shards = build_shards size; max = size - 1 }

  -- `shard`, and the method call on it: an index out of range and a nil shard panic.
  unfoldable pub shard : ShardedStreamsMap V → ℕ → Option (List (ℕ × V))
  shard s id = get_elem? s.shards (bit_and id s.max) >>= λ m. m

  -- the shard of `id` after a method that writes
  pub put_shard : ShardedStreamsMap V → ℕ → List (ℕ × V) → ShardedStreamsMap V
  put_shard s id m = record s { shards = set s.shards (bit_and id s.max) (some m) }

  unfoldable pub sharded_set : ShardedStreamsMap V → ℕ → V → Option (ShardedStreamsMap V)
  unfolding put_shard shard
  sharded_set s id v = shard s id >>= λ m. some (put_shard s id (set_entry m id v))

  unfoldable pub sharded_get : ShardedStreamsMap V → ℕ → Option (Option V)
  unfolding shard
  sharded_get s id = shard s id >>= λ m. some (get m id)

  unfoldable pub sharded_get_and_delete :
      ShardedStreamsMap V → ℕ → Option (Option V × ShardedStreamsMap V)
  unfolding put_shard shard
  sharded_get_and_delete s id =
      shard s id >>= λ m. some ((get_and_delete m id).0, put_shard s id (get_and_delete m id).1)

  unfoldable pub sharded_delete : ShardedStreamsMap V → ℕ → Option (ShardedStreamsMap V)
  unfolding put_shard shard
  sharded_delete s id = shard s id >>= λ m. some (put_shard s id (delete m id))

  -- `Each` of the odd places; a nil shard there panics.
  pub each_shard : List (Option (List (ℕ × V))) → Option (List V)
  each_shard [] = some []
  each_shard (a ∷ []) = some []
  each_shard (a ∷ none ∷ r) = none
  each_shard (a ∷ some m ∷ r) = each_shard r >>= λ vs. some (each m ++ vs)

  unfoldable pub sharded_each : ShardedStreamsMap V → Option (List V)
  unfolding each_shard
  sharded_each s = each_shard s.shards
