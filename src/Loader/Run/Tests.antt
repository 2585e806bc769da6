-- ===== src/Loader/Run/Tests.antt =====
-- Two streams, of which the server has not seen the second.
use framer.Base.{ℕ, ◌≡◌, refl, List, [], ◌∷◌, some, false, none, if◌then◌else◌}
use framer.Reciever.Loop.{Error}
use framer.Reciever.Buffers.{Failure}
use framer.Streams.Store.{
  ShardedStreamsMap, new_sharded, sharded_set, sharded_each, each, set_entry,
}
use framer.Streams.Store.Sharded.{sharded_view}
use framer.Streams.Store.Keyed.{with_id}
use framer.Streams.Store.Each.{Reached}
use framer.Loader.Run.{Told, run_reciever, expire_all}
use framer.Loader.Run.Goodbyes.{calls_on, told_of, run_reciever-told}
use framer.Loader.Run.Timeouts.{has, entry, expire_all-once}

-- A stream is its identifier.
abbrev id : ℕ → ℕ
id v = v

abbrev two_streams : (s : ShardedStreamsMap ℕ) × Reached id s
unfolding new_sharded sharded_set
two_streams = (_, Reached.sets 7 (Reached.sets 3 Reached.new refl refl) refl refl)

run_reciever-told_example :
    (told : List (Told ℕ)) × (run_reciever id false
        (some (Failure.processing (Error.go_away 2 5 [])))
        two_streams.0
      ≡ some (told, some (Failure.processing (Error.go_away 2 5 []))))
    × (calls_on id 7 told ≡ told_of id 2 5 [] (sharded_view two_streams.0 7))
run_reciever-told_example = run_reciever-told id 2 5 [] two_streams.1 7 refl

told_second :
    run_reciever id false (some (Failure.processing (Error.go_away 2 5 []))) two_streams.0
    ≡ some (
      Told.go_away 7 2 [] ∷ Told.end_stream 7 ∷ [],
      some (Failure.processing (Error.go_away 2 5 [])),
    )
unfolding run_reciever sharded_each two_streams each set_entry
told_second = refl

expire_all-once_example :
    (log : List (ℕ × ℕ)) × (t : ShardedStreamsMap ℕ) × (expire_all two_streams.0 (7 ∷ 7 ∷ [])
      ≡ some (log, t))
    × (with_id (λ x. x.0) 7 log
        ≡ (if has 7 (7 ∷ 7 ∷ []) then entry 7 (sharded_view two_streams.0 7) else []))
    × (sharded_view t 7 ≡ (if has 7 (7 ∷ 7 ∷ []) then none else sharded_view two_streams.0 7))
expire_all-once_example = expire_all-once id (7 ∷ 7 ∷ []) two_streams.1 (refl, (refl, tt)) 7 refl
