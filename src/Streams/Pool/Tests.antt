-- ===== src/Streams/Pool/Tests.antt =====
-- A request ends, and the next one gets its object.
use framer.Base.{◌≡◌, refl, [], none, some, get_elem?}
use framer.Streams.Pool.{acquire, release, new_streams_pool}
use framer.Utils.SlicePool
use framer.Streams.Pool.Owners.{State, start, Reach, here, later, begins, ends, count}
use framer.Streams.Pool.Fresh.{as_new, acquire-fresh}

abbrev after_one : State
after_one = record { pool = release (acquire (new_streams_pool none) 3).1 0; used = [] }

after_one-Reach : Reach (start none) after_one
unfolding acquire SlicePool.acquire
after_one-Reach = later (later here (begins (start none) 3)) (ends _ 0 [] [] refl)

acquire-fresh_example :
    (count (acquire after_one.pool 5).0 [] ≡ 0)
    × (get_elem? ((acquire after_one.pool 5).1).streams (acquire after_one.pool 5).0
        ≡ some (as_new 5 (after_one.pool).initial_window_size))
acquire-fresh_example = acquire-fresh none after_one 5 after_one-Reach
