-- ===== src/Report/Simple/Tests.antt =====
-- Two streams at once, and a stream that succeeds after one that was told of a GOAWAY.
use framer.Base.{◌+◌, ◌≡◌, refl, List, [], ◌∷◌, length, u32, codes}
use framer.Report.Simple.{Call, new_reporter}
use framer.Report.Simple.Counts.{Event, steps, new_system, steps-counters}
use framer.Report.Simple.Stuck.{lives, lives-told}

abbrev success : List Call
success = Call.set_size 7 ∷ Call.on_header (codes "grpc-status") (codes "0") ∷ []

abbrev farewell : List Call
farewell = Call.set_size 7 ∷ Call.go_away ∷ []

abbrev events : List Event
events =
    Event.opened
    ∷ Event.opened
    ∷ Event.called 1 Call.timeout
    ∷ Event.ended 1
    ∷ Event.opened
    ∷ Event.ended 0
    ∷ []

steps-counters_example :
    u32 (
      (steps events new_system).reporter.ok
      + (steps events new_system).reporter.nook
      + length (steps events new_system).open_streams)
    ≡ (steps events new_system).reporter.req
steps-counters_example = steps-counters events

lives-told_example :
    (u32 (lives (farewell ∷ success ∷ []) new_reporter).ok ≡ 2)
    × ((lives (farewell ∷ success ∷ []) new_reporter).nook ≡ 0)
lives-told_example = lives-told farewell (success ∷ []) new_reporter refl
