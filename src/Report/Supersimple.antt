-- ===== src/Report/Supersimple.antt =====
-- report/supersimple/supersimple.go: the counters of the supersimple report, and the one bit that it keeps
-- of a stream. The calls on a stream are those of the simple report.
pub mod Counts
mod Tests
use framer.Base.{
  ℕ, ◌+◌, ◌-◌, ◌%◌, List, Option, none, some, Bool, true, false, not, ◌&&◌, if◌then◌else◌, codes,
  u32, u32_mod,
}
use framer.Datasource.Middleware.{eq_bytes}
use framer.Report.Simple.{Call}
use framer.Utils.SlicePool.{release}
use framer.Utils.SlicePool as SlicePool

-- `streamState`
pub record StreamState : Type 0 where
  pub no_ok : Bool

-- `&streamState{reporter: a}`
abbrev pub new_state : StreamState
new_state = record { no_ok = false }

-- `reset`
unfoldable pub reset : StreamState → StreamState
reset s = record { no_ok = false }

-- What the calls but for `End` do to the state.
unfoldable pub on_call : Call → StreamState → StreamState
on_call Call.first_byte_sent s = s
on_call Call.last_byte_sent s = s
on_call (Call.set_size n) s = s
on_call Call.request_error s = record { no_ok = true }
on_call Call.io_error s = record { no_ok = true }
on_call (Call.rst_stream c) s = record { no_ok = true }
on_call Call.go_away s = record { no_ok = true }
on_call Call.timeout s = record { no_ok = true }
on_call (Call.on_header name value) s =
    if eq_bytes name (codes "grpc-status") && not (eq_bytes value (codes "0"))
    then record { no_ok = true }
    else s

-- `result`
unfoldable pub result : StreamState → Bool
result s = not s.no_ok

-- `Reporter`, with its pool.
pub record Reporter : Type 0 where
  pub pool : List StreamState
  pub ok : ℕ
  pub nook : ℕ
  pub req : ℕ
  pub size : ℕ
  pub last_ok : ℕ
  pub last_nook : ℕ
  pub last_req : ℕ
  pub last_size : ℕ

abbrev pub u64 : ℕ → ℕ
u64 x = x % 18_446_744_073_709_551_616

-- `Acquire`
unfoldable pub acquire : Reporter → StreamState × Reporter
unfolding reset
acquire a =
    let b = record a { req = u32 (a.req + 1) } in
    elim (SlicePool.acquire a.pool) [
      | none ↦ (reset new_state, b)
      | some (s, pool) ↦ (reset s, record b { pool = pool })
    ]

-- `accept`, which `End` calls.
unfoldable pub accept : StreamState → Reporter → Reporter
unfolding result
accept s a =
    let b =
      if result s then record a { ok = u32 (a.ok + 1) } else record a { nook = u32 (a.nook + 1) } in
    record b { pool = release b.pool s }

-- What a call does to the reporter: `SetSize` calls `addSize`.
unfoldable pub on_reporter : Call → Reporter → Reporter
on_reporter (Call.set_size n) a = record a { size = u64 (a.size + n) }
on_reporter _ a = a

-- `report`: the differences that are written, and the reporter afterwards.
unfoldable pub report : Reporter → (ℕ × ℕ × ℕ × ℕ) × Reporter
report a = (
  (
    u32 (a.ok + u32_mod - a.last_ok),
    u32 (a.nook + u32_mod - a.last_nook),
    u32 (a.req + u32_mod - a.last_req),
    u64 (a.size + 18_446_744_073_709_551_616 - a.last_size),
  ),
  record a { last_ok = a.ok; last_nook = a.nook; last_req = a.req; last_size = a.size },
)
