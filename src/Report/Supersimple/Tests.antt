-- ===== src/Report/Supersimple/Tests.antt =====
-- A stream that is reset and one that is answered, in the state of the first.
use framer.Base.{◌+◌, ◌≡◌, refl, List, [], ◌∷◌, codes, length, u32}
use framer.Report.Simple.{Call}
use framer.Utils.SlicePool as SlicePool
use framer.Report.Supersimple.{Reporter, acquire, accept, u64, on_call, on_reporter}
use framer.Report.Supersimple.Counts.{
  calls, calls_reported, lives, passed, failed, sizes, lives-counters,
}

abbrev fresh_reporter : Reporter
fresh_reporter = record {
  pool = [];
  ok = 0;
  nook = 0;
  req = 0;
  size = 0;
  last_ok = 0;
  last_nook = 0;
  last_req = 0;
  last_size = 0;
}

abbrev two_streams : List (List Call)
two_streams =
    (Call.set_size 5 ∷ Call.rst_stream 8 ∷ [])
    ∷ (Call.set_size 6 ∷ Call.on_header (codes "grpc-status") (codes "0") ∷ [])
    ∷ []

lives-counters_example :
    (u32 (lives two_streams fresh_reporter).ok ≡ u32 (0 + passed two_streams))
    × (u32 (lives two_streams fresh_reporter).nook ≡ u32 (0 + failed two_streams))
    × (u32 (lives two_streams fresh_reporter).req ≡ u32 (0 + length two_streams))
    × (u64 (lives two_streams fresh_reporter).size ≡ u64 (0 + sizes two_streams))
lives-counters_example = lives-counters two_streams fresh_reporter

lives_counts :
    ((lives two_streams fresh_reporter).ok ≡ 1) × ((lives two_streams fresh_reporter).size ≡ 11)
unfolding lives acquire accept calls on_call SlicePool.acquire calls_reported on_reporter
lives_counts = (refl, refl)
