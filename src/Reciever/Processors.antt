-- ===== src/Reciever/Processors.antt =====
-- loader/reciever/processor.go: the processors of the frame types. Each takes one piece of a frame
-- and its own fields, and acts on the `World`. `has` stands for `http2.Flags.Has`.
pub mod BigEndian
pub mod Echo
pub mod Windows
pub mod Farewell
pub mod Ends
mod Tests
use framer.Base.{
  ℕ, zero, suc, ◌+◌, ◌-◌, ◌*◌, ◌/◌, ◌^◌, Bytes, List, [], ◌∷◌, ◌++◌, Option, none, some, Bool, true,
  false, if◌then◌else◌, ltb, leb, ◌==◌, byte, u32, bit_or, length, take, drop, set, min, not, ◌≡◌,
  is_some,
}
use framer.FrameHeader.{length_field, flags_field, stream_id_field}
use framer.Http2.{frame_ping, frame_window_update, flag_ack, flag_end_stream}
use framer.Streams.Store.Interface.{StreamStore}
use framer.Reciever.Loop.{Result, Error, ok, err, panic}
use framer.Reciever.World.{
  World, Effect, emit, or_panic, ◌>>=◌, send_frame, limiter_release, on_header, rst_stream,
  end_stream, conn_window_add, stream_window_add,
}

-- `x << 8 | uint32(b)` on a `uint32`, and its loop over a payload.
pub shift_in : ℕ → ℕ → ℕ
shift_in x b = bit_or (u32 (x * 2 ^ 8)) b

unfoldable pub shift_all : ℕ → Bytes → ℕ
unfolding shift_in
shift_all x [] = x
shift_all x (b ∷ bs) = shift_all (shift_in x b) bs

-- `pingFrameProcessor`
pub record PingFrameProcessor : Type 0 where
  pub current_ping_ack_frame : Bytes
  pub next_ping_ack_frame : Bytes

abbrev pub ping_ack_header : Bytes
ping_ack_header = 0 ∷ 0 ∷ 8 ∷ byte frame_ping ∷ byte flag_ack ∷ 0 ∷ 0 ∷ 0 ∷ 0 ∷ []

-- `newPingFrameProcessor`
abbrev pub new_ping : PingFrameProcessor
new_ping = record {
  current_ping_ack_frame = ping_ack_header;
  next_ping_ack_frame = ping_ack_header;
}

-- `dataFrameProcessor`
pub record DataFrameProcessor : Type 0 where
  pub current_window_update_frame : Bytes
  pub next_window_update_frame : Bytes
  pub window_update_acc : ℕ

abbrev pub window_update_frame : Bytes
window_update_frame = 0 ∷ 0 ∷ 4 ∷ byte frame_window_update ∷ 0 ∷ 0 ∷ 0 ∷ 0 ∷ 0 ∷ 0 ∷ 0 ∷ 0 ∷ 0 ∷ []

-- `newDataFrameProcessor`
abbrev pub new_data : DataFrameProcessor
new_data = record {
  current_window_update_frame = window_update_frame;
  next_window_update_frame = window_update_frame;
  window_update_acc = 0;
}

-- `windowUpdateMinValue`
abbrev pub window_update_min_value : ℕ
window_update_min_value = 65535 / 4

-- The four writes of `p.currentWindowUpdateFrame[9..12]`, on the thirteen bytes that it has.
pub write_increment : Bytes → ℕ → Bytes
write_increment f acc =
    set (set (set (set f 9 (byte (acc / 2 ^ 24))) 10 (byte (acc / 2 ^ 16))) 11 (byte (acc / 2 ^ 8)))
      12 (byte acc)

-- `goAwayFrameProcessor`
pub record GoAwayFrameProcessor : Type 0 where
  pub err_code : ℕ
  pub last_stream_id : ℕ
  pub debug_data : Bytes
  pub index : ℕ

-- `newGoAwayFrameProcessor`
abbrev pub new_go_away : GoAwayFrameProcessor
new_go_away = record { err_code = 0; last_stream_id = 0; debug_data = []; index = 0 }

-- `for ; p.index < bound; p.index++`: the rounds left, the number read into, and the payload, whose
-- first byte is taken (a panic, if there is none).
take_number : ℕ → ℕ → Bytes → Option (ℕ × Bytes)
unfolding shift_in
take_number zero x payload = some (x, payload)
take_number (suc n) x [] = none
take_number (suc n) x (b ∷ payload) = take_number n (shift_in x b) payload

-- `goAwayFrameProcessor.Process`; a round of the two loops moves `index` by one.
unfoldable pub process_go_away :
    GoAwayFrameProcessor → Bytes → Bool → Result GoAwayFrameProcessor GoAwayFrameProcessor
unfolding take_number
process_go_away p payload incomplete =
    let max_index = p.index + length payload in
    let index1 = p.index + (min 4 max_index - p.index) in
    let index2 = index1 + (min 8 max_index - index1) in
    or_panic (take_number (min 4 max_index - p.index) p.last_stream_id payload) >>= λ r.
    or_panic (take_number (min 8 max_index - index1) p.err_code r.1) >>= λ t.
    let debug = p.debug_data ++ t.1 in
    if incomplete
    then ok (record { err_code = t.0; last_stream_id = r.0; debug_data = debug; index = index2 })
    else err (Error.go_away t.0 r.0 debug) new_go_away

-- `settingsProcessor.Process`
unfoldable pub process_settings : (ℕ → ℕ → Bool) → Bytes → Bool → Result (Unit {0}) (Unit {0})
process_settings has header incomplete =
    if incomplete
    then ok tt
    else (or_panic (flags_field header) >>= λ flags.
        if not (has flags flag_ack) then err Error.settings_update tt else ok tt)

module _ {V : Type 0} (S : StreamStore V) where
  -- `pingFrameProcessor.Process`. The two slices swap; the sent one is not written to before the
  -- next frame but one.
  unfoldable pub process_ping :
      PingFrameProcessor → World S → Bytes → Bool → PingFrameProcessor × World S
  process_ping p w payload incomplete =
      let current = p.current_ping_ack_frame ++ payload in
      if incomplete then (record p { current_ping_ack_frame = current }, w) else (
        record {
          current_ping_ack_frame = take 9 p.next_ping_ack_frame;
          next_ping_ack_frame = current;
        },
        emit S (send_frame current) w,
      )

  -- `stream := store.GetAndDelete(id)`, then the calls on the stream that was there.
  take_stream : World S → ℕ → (V → List (Effect V)) → Result (World S) (World S)
  take_stream w id effects = or_panic (S.get_and_delete w.store id) >>= λ r. elim r.0 [
    | none ↦ ok (record w { store = r.1 })
    | some v ↦ ok (record w { store = r.1; trace = w.trace ++ effects v })
  ]

  -- the window update of `dataFrameProcessor.Process`
  pub count_data : DataFrameProcessor → World S → ℕ → DataFrameProcessor × World S
  unfolding write_increment
  count_data p w n =
      let acc = p.window_update_acc + n in
      let frame = write_increment p.current_window_update_frame acc in
      if leb window_update_min_value acc
      then (
        record {
          current_window_update_frame = p.next_window_update_frame;
          next_window_update_frame = frame;
          window_update_acc = 0;
        },
        emit S (send_frame frame) w,
      )
      else (record p { window_update_acc = acc }, w)

  -- `dataFrameProcessor.Process`
  unfoldable pub process_data :
      (ℕ → ℕ → Bool)
      → DataFrameProcessor
      → World S
      → Bytes
      → Bool
      → Result (DataFrameProcessor × World S) (World S)
  unfolding count_data take_stream
  process_data has p w header incomplete =
      if incomplete
      then ok (p, w)
      else (or_panic (length_field header) >>= λ n.
          let q = count_data p w n in
          or_panic (flags_field header) >>= λ flags.
          if has flags flag_end_stream
          then (or_panic (stream_id_field header) >>= λ id.
              take_stream (emit S limiter_release q.1) id (λ v. end_stream v ∷ []) >>= λ w'.
              ok (q.0, w'))
          else ok q)

  -- `rstStreamFrameProcessor.Process`, on its `errCode`
  unfoldable pub process_rst_stream :
      ℕ → World S → Bytes → Bytes → Bool → Result (ℕ × World S) (World S)
  unfolding shift_all take_stream
  process_rst_stream code w header payload incomplete =
      let code' = shift_all code payload in
      if incomplete
      then ok (code', w)
      else (or_panic (stream_id_field header) >>= λ id.
          take_stream (emit S limiter_release w) id (λ v. rst_stream v code' ∷ end_stream v ∷ [])
          >>= λ w'. ok (code', w'))

  -- `windowUpdateFrameProcessor.Process`, on its `increment`
  unfoldable pub process_window_update :
      ℕ → World S → Bytes → Bytes → Bool → Result (ℕ × World S) (World S)
  unfolding shift_all
  process_window_update increment w header payload incomplete =
      let increment' = shift_all increment payload in
      if incomplete
      then ok (increment', w)
      else (or_panic (stream_id_field header) >>= λ id.
          if id == 0
          then ok (0, emit S (conn_window_add increment') w)
          else (or_panic (S.get w.store id) >>= λ r. elim r [
            | none ↦ ok (increment', w)
            | some v ↦ ok (0, emit S (stream_window_add v increment') w)
          ]))
