-- ===== src/Report/Phout.antt =====
-- report/phout/phout.go: what the phout report keeps of a stream, and the line that it writes of it. Times
-- are numbers of nanoseconds. `Run` takes the streams from the channel in the order of their ends.
pub mod Fields
pub mod Calls
pub mod Columns
pub mod Rows
pub mod Lines
mod Tests
use framer.Base.{
  ℕ, ◌+◌, ◌-◌, ◌/◌, ◌%◌, Bytes, List, [], ◌∷◌, ◌++◌, Option, none, some, Bool, true, false,
  if◌then◌else◌, codes,
}
use framer.Datasource.Middleware.{eq_bytes}
use framer.Formats.BinaryIo.{decimal}
use framer.Utils.SlicePool.{release}
use framer.Utils.SlicePool as SlicePool

-- `streamState`, but for the buffer of its line. An error is kept as whether it is not nil, that of the
-- connection with its `syscall.Errno`, if it has one.
pub record StreamState : Type 0 where
  pub grpc_code_header : Bytes
  pub http2_code_header : Bytes
  pub request_error : Bool
  pub io_err : Option (Option ℕ)
  pub rst_stream_code : Option ℕ
  pub go_away_code : Option ℕ
  pub timeouted : Bool
  pub req_size : ℕ
  pub start_time : ℕ
  pub end_time : ℕ
  pub tag : Bytes

-- `&streamState{…}`
abbrev pub new_state : StreamState
new_state = record {
  grpc_code_header = [];
  http2_code_header = [];
  request_error = false;
  io_err = none;
  rst_stream_code = none;
  go_away_code = none;
  timeouted = false;
  req_size = 0;
  start_time = 0;
  end_time = 0;
  tag = [];
}

-- `reset` at the time `now`
unfoldable pub reset : Bytes → ℕ → StreamState → StreamState
reset tag now s = record s {
  tag = tag;
  start_time = now;
  grpc_code_header = [];
  http2_code_header = [];
  timeouted = false;
  request_error = false;
  io_err = none;
  go_away_code = none;
  rst_stream_code = none;
  req_size = 0;
}

-- The calls on a stream's state but for `End`.
pub data Call : Type 0 where
  first_byte_sent last_byte_sent request_error timeout : Call
  set_size rst_stream go_away : ℕ → Call
  io_error : Option ℕ → Call
  on_header : Bytes → Bytes → Call

-- What they do to the state.
unfoldable pub on_call : Call → StreamState → StreamState
on_call Call.first_byte_sent s = s
on_call Call.last_byte_sent s = s
on_call Call.request_error s = record s { request_error = true }
on_call Call.timeout s = record s { timeouted = true }
on_call (Call.set_size n) s = record s { req_size = n }
on_call (Call.rst_stream c) s = record s { rst_stream_code = some c }
on_call (Call.go_away c) s = record s { go_away_code = some c }
on_call (Call.io_error e) s = record s { io_err = some e }
on_call (Call.on_header name value) s =
    if eq_bytes name (codes "grpc-status")
    then record s { grpc_code_header = value }
    else if eq_bytes name (codes ":status")
    then record s { http2_code_header = value }
    else s

unfoldable pub on_calls : List Call → StreamState → StreamState
unfolding on_call
on_calls [] s = s
on_calls (c ∷ cs) s = on_calls cs (on_call c s)

-- The column `keyErrno`.
abbrev pub errno : Option (Option ℕ) → Bytes
errno none = codes "0"
errno (some none) = codes "999"
errno (some (some n)) = decimal n

-- The column `keyProtoCode`.
unfoldable pub proto_code : StreamState → Bytes
proto_code s = if s.request_error then codes "client_error" else elim s.rst_stream_code [
  | some c ↦ codes "rst_" ++ decimal c
  | none ↦ elim s.go_away_code [
    | some c ↦ codes "goaway_" ++ decimal c
    | none ↦
        if s.timeouted
        then codes "grpc_4"
        else if eq_bytes s.http2_code_header []
        then codes "http2_1"
        else if eq_bytes s.grpc_code_header []
        then codes "http2_1"
        else codes "grpc_" ++ s.grpc_code_header
  ]
]

-- `tabChar`
abbrev pub tab_char : ℕ
tab_char = 9

-- `result`
unfoldable pub result : StreamState → Bytes
unfolding proto_code
result s =
    decimal (s.start_time / 1_000_000_000)
    ++ codes "."
    ++ decimal (s.start_time % 1_000_000_000 / 1_000_000)
    ++ tab_char ∷ []
    ++ s.tag
    ++ tab_char ∷ []
    ++ decimal ((s.end_time - s.start_time) / 1_000)
    ++ tab_char ∷ []
    ++ 48 ∷ tab_char ∷ []
    ++ 48 ∷ tab_char ∷ []
    ++ 48 ∷ tab_char ∷ []
    ++ 48 ∷ tab_char ∷ []
    ++ 48 ∷ tab_char ∷ []
    ++ decimal s.req_size
    ++ tab_char ∷ []
    ++ 48 ∷ tab_char ∷ []
    ++ errno s.io_err
    ++ tab_char ∷ []
    ++ proto_code s
    ++ 10 ∷ []

-- `Reporter`: its pool, the channel, and the lines that are written.
pub record Reporter : Type 0 where
  pub pool : List StreamState
  pub ch : List StreamState
  pub written : List Bytes

-- `Acquire` at the time `now`
unfoldable pub acquire : Bytes → ℕ → Reporter → StreamState × Reporter
unfolding reset
acquire tag now r = elim (SlicePool.acquire r.pool) [
  | none ↦ (reset tag now new_state, r)
  | some (s, pool) ↦ (reset tag now s, record r { pool = pool })
]

-- `End` at the time `now`, with `accept`
unfoldable pub end_stream : ℕ → StreamState → Reporter → Reporter
end_stream now s r = record r { ch = r.ch ++ record s { end_time = now } ∷ [] }

-- The loop of `Run` until the channel is empty, when every write succeeds.
run_on : List StreamState → List StreamState → List Bytes → Reporter
run_on [] pool written = record { pool = pool; ch = []; written = written }
run_on (s ∷ ch) pool written = run_on ch (release pool s) (written ++ result s ∷ [])

unfoldable pub run : Reporter → Reporter
unfolding result run_on
run r = run_on r.ch r.pool r.written
