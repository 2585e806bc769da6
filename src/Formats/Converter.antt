-- ===== src/Formats/Converter.antt =====
-- formats/converter/processor.go: messages are read, converted by `threads` goroutines in turn, and
-- written. Each goroutine's round between two channel operations is one step of the relation `Step`;
-- `g.Wait` and the text of errors are left out. `Job` is the strategy, with what its `Read` returns, and
-- the configuration.
pub mod Slots
pub mod Invariant
pub mod Reads
pub mod Keeps
pub mod Writes
pub mod Steps
pub mod Order
pub mod Progress
pub mod Sums
pub mod Work
pub mod Ends
mod Tests
use framer.Base.{
  ℕ, suc, ◌+◌, ◌%◌, ◌<◌, ◌≡◌, ◌≢◌, List, [], ◌∷◌, ◌++◌, Option, none, some, Bool, true, false, ◌||◌,
  if◌then◌else◌, ◌==◌, ltb, length,
}

pub record Job (M : Type 0) : Type 0 where
  -- `conf`
  pub threads : ℕ
  pub thread_buffer : ℕ
  pub fail_on_convert_errors : Bool
  -- whether a write of the n-th message's error to `errWriter` succeeds
  pub err_write : ℕ → Bool
  -- the messages that `Read` returns, how many there are, and whether an error other than `io.EOF`
  -- comes then
  pub message : ℕ → M
  pub count : ℕ
  pub read_fails : Bool
  -- `Decode` and `Encode` of the strategy, which change the message, and whether its `Write` succeeds
  pub decode : M → Option M
  pub encode : M → Option M
  pub write : M → Bool

-- `convertItem`
pub record ConvertItem (M : Type 0) : Type 0 where
  pub message : M
  pub convert_err : Bool

-- What `runRead` is about to do: read, send a message, or nothing, its channels being closed.
pub data Reading (M : Type 0) : Type 0 where
  idle : Reading M
  sending : M → Reading M
  ended : Reading M

pub record Reader (M : Type 0) : Type 0 where
  pub i : ℕ
  pub reading : Reading M

-- What `runConvert` is about to do: receive, send an item, or nothing, its channel being closed.
pub data Converting (M : Type 0) : Type 0 where
  idle : Converting M
  sending : ConvertItem M → Converting M
  ended : Converting M

-- Whether `runWrite` runs; `finished` is the return of nil, `failed` that of an error, and `stopped`
-- that of the context's.
pub data Status : Type 0 where
  running finished failed stopped : Status

-- The variables of `runWrite`, and what it has written.
pub record Writer (M : Type 0) : Type 0 where
  pub i : ℕ
  pub closed_chans : ℕ
  pub status : Status
  pub written : List M
  pub errors : List ℕ

-- The goroutines, the buffers of `readChans`, and whether the context is cancelled.
pub record System (M : Type 0) : Type 0 where
  pub reader : Reader M
  pub queue : ℕ → List M
  pub converter : ℕ → Converting M
  pub writer : Writer M
  pub cancelled : Bool

-- A family with another value at one index.
abbrev pub update {ℓ} : {A : Type ℓ} → (ℕ → A) → ℕ → A → ℕ → A
update f i a j = if i == j then a else f j

module _ {M : Type 0} (J : Job M) where
  -- `s.Read()` and the returns after it.
  unfoldable pub read_next : Reader M → Reader M
  read_next r =
      if ltb r.i J.count
      then record r { reading = Reading.sending (J.message r.i) }
      else record r { reading = Reading.ended }

  -- Whether `runRead` returns an error, which cancels the context.
  unfoldable pub read_error : Reader M → Bool
  read_error r = if ltb r.i J.count then false else J.read_fails

  -- The conversion of a message in `runConvert`.
  unfoldable pub converted : M → ConvertItem M
  converted m = elim (J.decode m) [
    | none ↦ record { message = m; convert_err = true }
    | some d ↦ elim (J.encode d) [
      | none ↦ record { message = d; convert_err = true }
      | some e ↦ record { message = e; convert_err = false }
    ]
  ]

  -- `runWrite` on an item.
  unfoldable pub write_item : ConvertItem M → Writer M → Writer M
  write_item x w =
      let v = record w { i = suc w.i } in
      if x.convert_err
      then if J.fail_on_convert_errors
        then record v { status = Status.failed }
        else if J.err_write (suc w.i)
        then record v { errors = w.errors ++ suc w.i ∷ [] }
        else record v { status = Status.failed }
      else if J.write x.message
      then record v { written = w.written ++ x.message ∷ [] }
      else record v { status = Status.failed }

  abbrev pub has_failed : Status → Bool
  has_failed Status.failed = true
  has_failed _ = false

  -- `runWrite` on a closed channel.
  unfoldable pub channel_closed : Writer M → Writer M
  channel_closed w =
      let v = record w { closed_chans = w.closed_chans + 1 } in
      if w.closed_chans + 1 == J.threads then record v { status = Status.finished } else v

  -- The channel that the reader, or the writer, uses next.
  abbrev pub turn : ℕ → ℕ
  turn i = i % J.threads

  abbrev pub sent : System M → System M
  sent s = record s { reader = record { i = s.reader.i + 1; reading = Reading.idle } }

  pub data Step (s : System M) : System M → Type 0 where
    read :
        s.reader.reading ≡ Reading.idle
        → Step s (record s {
          reader = read_next s.reader;
          cancelled = read_error s.reader || s.cancelled;
        })
    -- a message goes into the buffer of its channel, or to the goroutine that waits there
    send :
        (m : M)
        → s.reader.reading ≡ Reading.sending m
        → length (s.queue (turn s.reader.i)) < J.thread_buffer
        → Step s (record (sent s) {
          queue = update s.queue (turn s.reader.i) (s.queue (turn s.reader.i) ++ m ∷ []);
        })
    hand :
        (m : M)
        → s.reader.reading ≡ Reading.sending m
        → s.queue (turn s.reader.i) ≡ []
        → s.converter (turn s.reader.i) ≡ Converting.idle
        → Step s (record (sent s) {
          converter = update s.converter (turn s.reader.i) (Converting.sending (converted m));
        })
    take :
        (j : ℕ) (m : M) (q : List M)
        → j < J.threads
        → s.converter j ≡ Converting.idle
        → s.queue j ≡ m ∷ q
        → Step s (record s {
          queue = update s.queue j q;
          converter = update s.converter j (Converting.sending (converted m));
        })
    -- the channel is closed and empty
    drain :
        (j : ℕ)
        → j < J.threads
        → s.converter j ≡ Converting.idle
        → s.queue j ≡ []
        → s.reader.reading ≡ Reading.ended
        → Step s (record s { converter = update s.converter j Converting.ended })
    write :
        (x : ConvertItem M)
        → s.writer.status ≡ Status.running
        → s.converter (turn s.writer.i) ≡ Converting.sending x
        → Step s (record s {
          converter = update s.converter (turn s.writer.i) Converting.idle;
          writer = write_item x s.writer;
          cancelled = has_failed (write_item x s.writer).status || s.cancelled;
        })
    closed :
        s.writer.status ≡ Status.running
        → s.converter (turn s.writer.i) ≡ Converting.ended
        → Step s (record s { writer = channel_closed s.writer })
    -- the context is cancelled from outside, and goroutines that wait return
    cancel : s.cancelled ≡ false → Step s (record s { cancelled = true })
    stop_reader :
        (m : M)
        → s.cancelled ≡ true
        → s.reader.reading ≡ Reading.sending m
        → Step s (record s { reader = record (s.reader) { reading = Reading.ended } })
    stop_converter :
        (j : ℕ)
        → s.cancelled ≡ true
        → j < J.threads
        → s.converter j ≢ Converting.ended
        → Step s (record s { converter = update s.converter j Converting.ended })
    stop_writer :
        s.cancelled ≡ true
        → s.writer.status ≡ Status.running
        → Step s (record s { writer = record (s.writer) { status = Status.stopped } })

  -- `Process`
  abbrev pub start : System M
  start = record {
    reader = record { i = 0; reading = Reading.idle };
    queue = λ _. [];
    converter = λ _. Converting.idle;
    writer = record { i = 0; closed_chans = 0; status = Status.running; written = []; errors = [] };
    cancelled = false;
  }

  pub data Reach : System M → Type 0 where
    here : Reach start
    later : {s t : System M} → Reach s → Step s t → Reach t
