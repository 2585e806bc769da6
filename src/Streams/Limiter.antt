-- ===== src/Streams/Limiter.antt =====
-- loader/streams/limiter/limiter.go: the limit on concurrent streams. `WaitAllow` holds the lock from
-- its test to its decrement and gives it up only inside `cond.Wait`, so the code between two waits is
-- one step. `quota` is a `uint32`.
pub mod Schedules
mod Tests
use framer.Base.{ℕ, ◌+◌, ◌-◌, Option, none, some, if◌then◌else◌, ◌==◌, u32}

-- `limiter`, without its condition variable
pub record Limiter : Type 0 where
  pub quota : ℕ

-- `types.StreamsLimiter`, by what `New` returns
pub data StreamsLimiter : Type 0 where
  noop_limiter : StreamsLimiter
  limited : Limiter → StreamsLimiter

-- `New`
unfoldable pub new_limiter : ℕ → StreamsLimiter
new_limiter quota =
    if quota == 0
    then StreamsLimiter.noop_limiter
    else StreamsLimiter.limited (record { quota = quota })

-- One pass of `WaitAllow` under the lock: `none` means that the goroutine waits on the condition.
unfoldable pub wait_allow : Limiter → Option Limiter
wait_allow l = if l.quota == 0 then none else some (record { quota = l.quota - 1 })

-- `Release`, up to its unlock; the deferred `Signal` comes after it.
unfoldable pub release : Limiter → Limiter
release l = record { quota = u32 (l.quota + 1) }
