-- ===== src/Report/Simple.antt =====
-- report/simple/simple.go: the counters of the simple report, and what it keeps of a stream. An error
-- is kept as whether it is not nil. The atomic counters are steps by themselves; the calls on a stream
-- are in the hands of the stream's owner.
pub mod Counts
pub mod Stuck
mod Tests
use framer.Base.{
  ℕ, zero, suc, ◌+◌, ◌-◌, ◌%◌, Bytes, List, [], ◌∷◌, ◌++◌, Option, none, some, Bool, true, false,
  not, if◌then◌else◌, ◌==◌, codes, u32, u32_mod, take, drop, get_elem?, set,
}
use framer.Datasource.Middleware.{eq_bytes}
use framer.Utils.SlicePool.{release}
use framer.Utils.SlicePool as SlicePool

-- `streamState`
pub record StreamState : Type 0 where
  pub size : ℕ
  pub timeouted : Bool
  pub grpc_code_str : Bytes
  pub grpc_message_str : Bytes
  pub code : ℕ
  pub go_away : Bool
  pub io_err : Bool
  pub request_err : Bool

-- `&streamState{reporter: a}`
abbrev pub new_state : StreamState
new_state = record {
  size = 0;
  timeouted = false;
  grpc_code_str = [];
  grpc_message_str = [];
  code = 0;
  go_away = false;
  io_err = false;
  request_err = false;
}

-- `reset`
unfoldable pub reset : StreamState → StreamState
reset s = record s {
  timeouted = false;
  size = 0;
  grpc_code_str = [];
  grpc_message_str = [];
  code = 0;
  io_err = false;
}

-- The calls on a stream's state but for `End`.
pub data Call : Type 0 where
  first_byte_sent last_byte_sent request_error io_error go_away timeout : Call
  set_size rst_stream : ℕ → Call
  on_header : Bytes → Bytes → Call

-- What they do to the state.
unfoldable pub on_call : Call → StreamState → StreamState
on_call Call.first_byte_sent s = s
on_call Call.last_byte_sent s = s
on_call Call.request_error s = record s { request_err = true }
on_call Call.io_error s = record s { io_err = true }
on_call Call.go_away s = record s { go_away = true }
on_call Call.timeout s = record s { timeouted = true }
on_call (Call.set_size n) s = s
on_call (Call.rst_stream c) s = record s { code = c }
on_call (Call.on_header name value) s =
    if eq_bytes name (codes "grpc-status")
    then record s { grpc_code_str = value }
    else if eq_bytes name (codes "grpc-message")
    then record s { grpc_message_str = value }
    else s

-- `result`
unfoldable pub result : StreamState → Bool
result s =
    if s.timeouted
    then false
    else if not (s.code == 0)
    then false
    else if s.request_err
    then false
    else if s.io_err
    then false
    else if s.go_away
    then false
    else if eq_bytes s.grpc_code_str (codes "0")
    then true
    else false

-- `Reporter`, with its pool.
pub record Reporter : Type 0 where
  pub pool : List StreamState
  pub ok : ℕ
  pub nook : ℕ
  pub req : ℕ
  pub size : ℕ
  pub last_ok : ℕ
  pub last_nook : ℕ
  pub last_req : ℕ
  pub last_size : ℕ

-- `New`
abbrev pub new_reporter : Reporter
new_reporter = record {
  pool = [];
  ok = 0;
  nook = 0;
  req = 0;
  size = 0;
  last_ok = 0;
  last_nook = 0;
  last_req = 0;
  last_size = 0;
}

-- `Acquire`
unfoldable pub acquire : Reporter → StreamState × Reporter
acquire a =
    let b = record a { req = u32 (a.req + 1) } in
    elim (SlicePool.acquire a.pool) [
      | none ↦ (reset new_state, b)
      | some (s, pool) ↦ (reset s, record b { pool = pool })
    ]

-- `accept`, which `End` calls.
unfoldable pub accept : StreamState → Reporter → Reporter
accept s a =
    let b =
      if result s then record a { nook = u32 (a.nook + 1) } else record a { ok = u32 (a.ok + 1) } in
    record b { pool = release b.pool s }

-- `addSize`, on 64 bits.
abbrev pub add_size : ℕ → Reporter → Reporter
add_size n a = record a { size = (a.size + n) % 18_446_744_073_709_551_616 }

-- What a call does to the reporter: `SetSize` adds to its size.
unfoldable pub on_reporter : Call → Reporter → Reporter
on_reporter (Call.set_size n) a = add_size n a
on_reporter _ a = a

-- `report`: the differences that are written, and the reporter afterwards.
unfoldable pub report : Reporter → (ℕ × ℕ × ℕ × ℕ) × Reporter
report a = (
  (
    u32 (a.ok + u32_mod - a.last_ok),
    u32 (a.nook + u32_mod - a.last_nook),
    u32 (a.req + u32_mod - a.last_req),
    (a.size + 18_446_744_073_709_551_616 - a.last_size) % 18_446_744_073_709_551_616,
  ),
  record a { last_ok = a.ok; last_nook = a.nook; last_req = a.req; last_size = a.size },
)
