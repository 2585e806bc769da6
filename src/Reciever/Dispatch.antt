-- ===== src/Reciever/Dispatch.antt =====
-- loader/reciever/processor.go: the table of processors that `NewDefaultProcessor` builds, as a handler
-- of the loop.
pub mod Table
mod Tests
use framer.Base.{
  ℕ, Bytes, List, [], ◌∷◌, Option, none, some, Bool, true, false, if◌then◌else◌, ◌==◌, get_elem?,
}
use framer.FrameHeader.{type_field}
use framer.Streams.Store.Interface.{StreamStore}
use framer.Reciever.Loop.{Handler, Result, Error, ok, err, panic}
use framer.Reciever.World.{World, or_panic, ◌>>=◌}
use framer.Reciever.Processors.{
  PingFrameProcessor, DataFrameProcessor, GoAwayFrameProcessor, new_ping, new_data, new_go_away,
  process_ping, process_data, process_rst_stream, process_settings, process_go_away,
  process_window_update,
}
use framer.Reciever.Headers.{Hpack, HeadersFrameProcessor, new_headers, process_headers}

-- The processors, by what they are.
pub data Subprocessor : Type 0 where
  data_frames headers_frames rst_stream_frames settings_frames ping_frames : Subprocessor
  go_away_frames window_update_frames : Subprocessor

-- The slice literal of `NewDefaultProcessor`: PRIORITY (2) and PUSH_PROMISE (5) are left nil, and
-- HEADERS (1) and CONTINUATION (9) share a processor.
abbrev pub subprocessors : List (Option Subprocessor)
subprocessors =
    some Subprocessor.data_frames
    ∷ some Subprocessor.headers_frames
    ∷ none
    ∷ some Subprocessor.rst_stream_frames
    ∷ some Subprocessor.settings_frames
    ∷ none
    ∷ some Subprocessor.ping_frames
    ∷ some Subprocessor.go_away_frames
    ∷ some Subprocessor.window_update_frames
    ∷ some Subprocessor.headers_frames
    ∷ []

-- A result on one processor's fields, put back into the state of all.
abbrev pub rewrap {ℓ κ} :
    {A : Type ℓ} {T : Type κ} {P : Type 0} → (A → P) → (T → P) → Result A T → Result P P
rewrap f g (Result.ok a) = ok (f a)
rewrap f g (Result.err e t) = err e (g t)
rewrap f g Result.panic = panic

module _ {V : Type 0} (S : StreamStore V) (H : Hpack) (has : ℕ → ℕ → Bool) where
  -- The fields of all the processors, and the world that they share.
  pub record Processors : Type 0 where
    pub ping : PingFrameProcessor
    pub received : DataFrameProcessor
    pub headers : HeadersFrameProcessor S H
    pub rst_err_code : ℕ
    pub increment : ℕ
    pub go_away : GoAwayFrameProcessor
    pub world : World S

  -- `NewDefaultProcessor`
  pub new_default_processor : S.Store → Processors
  new_default_processor store = record {
    ping = new_ping;
    received = new_data;
    headers = new_headers S H;
    rst_err_code = 0;
    increment = 0;
    go_away = new_go_away;
    world = record { store = store; trace = [] };
  }

  -- `sp.Process`, by the kind of `sp`.
  pub process_by : Subprocessor → Bytes → Bytes → Bool → Processors → Result Processors Processors
  process_by Subprocessor.data_frames header payload incomplete p =
      rewrap (λ r. record p { received = r.0; world = r.1 }) (λ w. record p { world = w })
        (process_data S has p.received p.world header incomplete)
  process_by Subprocessor.headers_frames header payload incomplete p =
      rewrap (λ r. record p { headers = r.0; world = r.1 }) (λ w. record p { world = w })
        (process_headers S H has p.headers p.world header payload incomplete)
  process_by Subprocessor.rst_stream_frames header payload incomplete p =
      rewrap (λ r. record p { rst_err_code = r.0; world = r.1 }) (λ w. record p { world = w })
        (process_rst_stream S p.rst_err_code p.world header payload incomplete)
  process_by Subprocessor.settings_frames header payload incomplete p =
      rewrap (λ r. p) (λ r. p) (process_settings has header incomplete)
  process_by Subprocessor.ping_frames header payload incomplete p =
      let (ping, w) = process_ping S p.ping p.world payload incomplete in
      ok (record p { ping = ping; world = w })
  process_by Subprocessor.go_away_frames header payload incomplete p =
      rewrap (λ r. record p { go_away = r }) (λ r. record p { go_away = r })
        (process_go_away p.go_away payload incomplete)
  process_by Subprocessor.window_update_frames header payload incomplete p =
      rewrap (λ r. record p { increment = r.0; world = r.1 }) (λ w. record p { world = w })
        (process_window_update S p.increment p.world header payload incomplete)

  -- `sp := p.subprocessors[header.Type()]` and the call: a type past the table is an index out of
  -- range.
  unfoldable pub dispatch : Handler Processors
  unfolding process_by
  dispatch header payload incomplete p = or_panic (type_field header) >>= λ t.
      or_panic (get_elem? subprocessors t) >>= λ sp. elim sp [
        | none ↦ err (Error.frame_type_not_supported t) p
        | some k ↦ process_by k header payload incomplete p
      ]
