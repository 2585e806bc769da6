-- ===== src/Streams/Store/Tests.antt =====
-- Runs of the stores, and the refinement at a short history.
use framer.Base.{ℕ, ◌≡◌, refl, List, [], ◌∷◌, none, arith}
use framer.Streams.Store.{new_sharded, sharded_get}
use framer.Streams.Store.Map.{streams_map}
use framer.Streams.Store.Sharded.{sharded_streams_map}
use framer.Streams.Store.Trace.{Op, calls}
use framer.Streams.Store.Refines.{sharded-refines-map}

-- Streams 3 and 19 share a shard.
abbrev history : List (Op ℕ)
history =
    Op.sets 3 30
    ∷ Op.sets 19 190
    ∷ Op.gets 3
    ∷ Op.gets_and_deletes 19
    ∷ Op.gets 19
    ∷ Op.deletes 3
    ∷ Op.gets 3
    ∷ []

sharded-refines-map_example :
    calls (sharded_streams_map ℕ) (new_sharded 16) history ≡ calls (streams_map ℕ) [] history
sharded-refines-map_example = sharded-refines-map history (omega arith)

-- A call on an even identifier meets a nil shard.
even_panics : sharded_get (new_sharded {V = ℕ} 16) 2 ≡ none
unfolding sharded_get new_sharded
even_panics = refl
