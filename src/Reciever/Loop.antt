-- ===== src/Reciever/Loop.antt =====
-- loader/reciever/processor.go: `process` and `Run`, over any table of frame processors. A handler
-- stands for `p.subprocessors[header.Type()]` and its `Process`.
pub mod Drains
pub mod Chunks
pub mod Runs
mod Tests
use framer.Base.{
  ℕ, zero, suc, ◌+◌, Bytes, List, [], ◌∷◌, Option, none, some, Bool, true, false, length,
}
use framer.Reciever.Framer.{Framer, Status, next, fill}

-- The errors that end the loop.
pub data Error : Type 0 where
  frame_type_not_supported : ℕ → Error
  hpack_decoding : Error
  settings_update : Error
  -- `GoAwayError`: code, last stream and debug data.
  go_away : ℕ → ℕ → Bytes → Error

-- A Go call that returns, or returns an error with the state that it left, or panics.
pub data Result {ℓ κ} (A : Type ℓ) (S : Type κ) : Type (ℓ ⊔ κ) where
  ok : A → Result A S
  err : Error → S → Result A S
  panic : Result A S

-- `Process(header, payload, incomplete)` on the state of all processors.
abbrev pub Handler {ℓ} : Type ℓ → Type ℓ
Handler S = Bytes → Bytes → Bool → S → Result S S

module _ {ℓ} {S : Type ℓ} where
  -- What follows a call of `Next` in the loop; `again` is the next round.
  after_next :
      Handler S
      → (Framer → S → Option (Result (S × Framer) S))
      → S
      → Bytes
      → Status
      → Framer
      → Option (Result (S × Framer) S)
  after_next handle again s b Status.header_incomplete q = some (ok (s, q))
  after_next handle again s b Status.frame_done q = elim (handle q.header b false s) [
    | ok s' ↦ again q s'
    | err e s' ↦ some (err e s')
    | panic ↦ some panic
  ]
  after_next handle again s b Status.frame_done_buf_empty q = elim (handle q.header b false s) [
    | ok s' ↦ some (ok (s', q))
    | err e s' ↦ some (err e s')
    | panic ↦ some panic
  ]
  after_next handle again s b Status.payload_incomplete q = elim (handle q.header b true s) [
    | ok s' ↦ some (ok (s', q))
    | err e s' ↦ some (err e s')
    | panic ↦ some panic
  ]

  -- The loop of `process`, on fuel; `none` means that the fuel ran out.
  pub rounds : Handler S → ℕ → Framer → S → Option (Result (S × Framer) S)
  unfolding after_next
  rounds handle zero p s = none
  rounds handle (suc n) p s = elim (next p) [
    | none ↦ some panic
    | some (b, status, q) ↦ after_next handle (rounds handle n) s b status q
  ]

  -- `process`: each round but the last takes a byte at least, so the length of the buffer is enough.
  unfoldable pub process : Handler S → Framer → S → Bytes → Option (Result (S × Framer) S)
  unfolding rounds
  process handle p s buf = rounds handle (suc (length buf)) (fill p buf) s

  -- `Run`: the buffers that arrive on the channel, until it is closed.
  unfoldable pub run : Handler S → Framer → S → List Bytes → Option (Result (S × Framer) S)
  unfolding process
  run handle p s [] = some (ok (s, p))
  run handle p s (b ∷ bs) = elim (process handle p s b) [
    | none ↦ none
    | some (ok (s', q)) ↦ run handle q s' bs
    | some (err e s') ↦ some (err e s')
    | some panic ↦ some panic
  ]
