-- ===== src/Streams/FlowControl.antt =====
-- loader/flowcontrol/flowcontrol.go: a flow-control window. Each method holds the lock throughout;
-- `Wait` gives it up only inside `cond.Wait`, so the code between two waits is one step. `Add` and
-- `Disable` broadcast before they unlock. `n` is a `uint32`.
pub mod Schedules
mod Tests
use framer.Base.{
  ℕ, ◌+◌, ◌-◌, ◌*◌, Option, none, some, Bool, true, false, if◌then◌else◌, ◌==◌, ltb, ◌&&◌, u32,
  u32_mod,
}

-- `FlowControl`, without its condition variable
pub record FlowControl : Type 0 where
  pub n : ℕ
  pub ok : Bool

-- `NewFlowControl`
abbrev pub new_flow_control : ℕ → FlowControl
new_flow_control n = record { n = n; ok = true }

-- `Wait` for `n` bytes, from a test of its loop on: `none` means that the goroutine waits on the
-- condition. Nothing is asked for, and the lock is not taken, where `n` is 0.
unfoldable pub wait : FlowControl → ℕ → Option (Bool × FlowControl)
wait fc n =
    if n == 0
    then some (true, fc)
    else if ltb fc.n n && fc.ok
    then none
    else some (fc.ok, record { n = u32 (fc.n + u32_mod - n); ok = fc.ok })

-- `Add`
unfoldable pub add : FlowControl → ℕ → FlowControl
add fc n = record { n = u32 (fc.n + n); ok = fc.ok }

-- `Reset`
unfoldable pub reset : FlowControl → ℕ → FlowControl
reset fc n = record { n = n; ok = true }

-- `Disable`
unfoldable pub disable : FlowControl → FlowControl
disable fc = record { n = fc.n; ok = false }
