-- ===== src/Streams/Store/Refines.antt =====
-- The store of `newLoader` against the plain map of `StreamsMap`.
use framer.Base.{◌≡◌, refl, sym, ◌∙◌, List, [], ◌∷◌, none, All}
use framer.Streams.Store.{get, new_sharded}
use framer.Streams.Store.Map.{streams_map}
use framer.Streams.Store.Sharded.{IsOdd, sharded_streams_map, new_sharded-Built, sharded_view-new}
use framer.Streams.Store.Trace.{Op, id_of, calls, calls-answers}

-- Served by every identifier, whatever the calls are.
All-served : {V : Type 0} (os : List (Op V)) → All (λ o. Unit {0}) os
All-served [] = tt
All-served (o ∷ os) = (tt, All-served os)

-- Every history of calls on odd identifiers, those of the streams that a client opens, is answered
-- by the sharded store of sixteen without a panic, call for call as by one plain map.
pub sharded-refines-map :
    {V : Type 0} (os : List (Op V))
    → All (λ o. IsOdd (id_of o)) os
    → calls (sharded_streams_map V) (new_sharded 16) os ≡ calls (streams_map V) [] os
sharded-refines-map {V} os odd =
    calls-answers (sharded_streams_map V) (new_sharded 16) (λ _. none) os new_sharded-Built
      sharded_view-new odd
    ∙ sym (
        calls-answers (streams_map V) [] (λ _. none) os tt (λ j _. unfold get in refl)
          (All-served os))
