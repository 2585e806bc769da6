-- ===== src/Streams/Limiter/Tests.antt =====
-- Two goroutines and one slot: the second sleeps, and a release wakes it.
use framer.Base.{refl, arith}
use framer.Streams.Limiter.{Limiter, wait_allow, release}
use framer.Streams.Limiter.Schedules.{
  State, Reach, here, later, arrive, sleep, allow, give, wake, IsFair, Reach-IsFair,
}

abbrev empty_limiter : Limiter
empty_limiter = record { quota = 0 }

abbrev woken : State
woken = record {
  limiter = release empty_limiter;
  ready = 1;
  asleep = 0;
  signals = 0;
  allowed = 1;
  released = 1;
}

woken-Reach : Reach 1 woken
unfolding wait_allow
woken-Reach =
    later
      (later
        (later
          (later (later (later here (arrive _)) (arrive _)) (allow _ 1 empty_limiter refl refl))
          (sleep _ 0 refl refl))
        (give _))
      (wake _ 0 0 refl refl)

Reach-IsFair_example : IsFair 1 woken
Reach-IsFair_example = Reach-IsFair woken-Reach (omega arith)
