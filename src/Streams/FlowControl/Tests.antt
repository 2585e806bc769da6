-- ===== src/Streams/FlowControl/Tests.antt =====
-- A goroutine that wants ten bytes of a window of four waits until six are added.
use framer.Base.{refl, [], true, arith}
use framer.Streams.FlowControl.{wait, add}
use framer.Streams.FlowControl.Schedules.{
  State, Reach, here, later, sleep, credit, grant, IsSound, Reach-IsSound,
}

abbrev spent : State
spent = record { window = record { n = 0; ok = true }; asleep = []; granted = 10; added = 6 }

spent-Reach : Reach 4 spent
unfolding wait add
spent-Reach =
    later (later (later here (sleep _ 10 refl)) (credit _ 6))
      (grant _ 10 (record { n = 0; ok = true }) refl)

Reach-IsSound_example : IsSound 4 spent
Reach-IsSound_example = Reach-IsSound spent-Reach (omega arith)
