-- ===== src/Streams/Pool.antt =====
-- loader/streams/pool/pool.go: the pool of stream objects. An object is a reference, the index of
-- its fields in `streams`; the fields that no other part reads are left out. `Acquire` changes the
-- pool under the lock, and the object afterwards, while no other goroutine has it.
pub mod Owners
pub mod Fresh
mod Tests
use framer.Base.{
  ℕ, ◌+◌, ◌-◌, List, [], ◌∷◌, ◌++◌, Option, none, some, Bool, if◌then◌else◌, ◌==◌, length, set,
  get_elem?, u32, u32_mod,
}
use framer.Streams.FlowControl.{FlowControl, new_flow_control, reset}
use framer.Utils.SlicePool

-- `streamImpl`
pub record StreamImpl : Type 0 where
  pub stream_id : ℕ
  pub fc : FlowControl

-- `StreamsPool`, and the objects that it has made
pub record StreamsPool : Type 0 where
  pub pool : List ℕ
  pub in_use : ℕ
  pub initial_window_size : ℕ
  pub streams : List StreamImpl

-- `consts.DefaultInitialWindowSize`
abbrev pub default_initial_window_size : ℕ
default_initial_window_size = 65_535

-- `NewStreamsPool`, with the value of `WithInitialWindowSize`, if it is given
abbrev pub new_streams_pool : Option ℕ → StreamsPool
new_streams_pool o = record {
  pool = [];
  in_use = 0;
  initial_window_size = elim o [ some n ↦ n | none ↦ default_initial_window_size ];
  streams = [];
}

-- The object of `Acquire`: the last of the slice, or a new one.
pub taken : StreamsPool → Option (ℕ × List ℕ) → ℕ × StreamsPool
taken p none = (
  length p.streams,
  record p {
    in_use = u32 (p.in_use + 1);
    streams =
        p.streams ++ record { stream_id = 0; fc = new_flow_control p.initial_window_size } ∷ [];
  },
)
taken p (some (r, rest)) = (r, record p { in_use = u32 (p.in_use + 1); pool = rest })

-- The end of `Acquire`: the identifier, and `fc.Reset`, on the fields of the object.
pub fields_set : StreamsPool → ℕ → ℕ → Option StreamImpl → List StreamImpl
fields_set p r id none = p.streams
fields_set p r id (some s) =
    set p.streams r (record { stream_id = id; fc = reset s.fc p.initial_window_size })

pub prepared : ℕ → ℕ × StreamsPool → ℕ × StreamsPool
unfolding fields_set
prepared id (r, p) = (r, record p { streams = fields_set p r id (get_elem? p.streams r) })

-- `Acquire`
unfoldable pub acquire : StreamsPool → ℕ → ℕ × StreamsPool
unfolding taken prepared
acquire p id = prepared id (taken p (SlicePool.acquire p.pool))

-- `release`, which `End` of a stream ends with
unfoldable pub release : StreamsPool → ℕ → StreamsPool
release p r = record p { pool = SlicePool.release p.pool r; in_use = u32 (p.in_use + u32_mod - 1) }

-- `InUse`, and the test of `WaitAllReleased`
abbrev pub all_released : StreamsPool → Bool
all_released p = p.in_use == 0
