-- ===== src/Reciever/Buffers.antt =====
-- loader/reciever/reciever.go: the two goroutines of `Run`, one that reads from the connection into two
-- buffers in turn and one that runs the processors. A goroutine's round between two operations on the
-- connection or on the channel, which has no buffer, is one step of the relation `Step`. `chunks` is
-- what the reads of the connection that do not fail give. Each read may fail instead, and whether it
-- fails or not, `io.Reader` lets it use all of the buffer; the bytes that come with an error are dropped
-- by the code, so that they are among what a failing read leaves in the buffer. A processor that sends a
-- frame of its own may find `priorityFramesChan` full; then it waits, with no test of the context, for
-- the sender's goroutine, which may never come. The waits for one buffer are taken together.
pub mod Invariant
pub mod Overwrite
pub mod Steps
pub mod Undisturbed
pub mod Work
pub mod Ends
mod Tests
use framer.Base.{
  ℕ, ◌≡◌, Bytes, List, [], ◌∷◌, ◌++◌, Option, none, some, Bool, true, false, length, take,
  replicate,
}
use framer.Reciever.Framer.{Framer, new_framer}
use framer.Reciever.Loop.{Error, Result, Handler, process}

abbrev pub recieve_buffer_size : ℕ
recieve_buffer_size = 2048

-- `buf1` and `buf2`
pub data Which : Type 0 where
  buf1 buf2 : Which

-- The errors that the goroutines return: of the connection, of the context and of a processor.
pub data Failure : Type 0 where
  reading : Failure
  context : Failure
  processing : Error → Failure

-- What the reading goroutine is about to do: test the context, read, send the first bytes of its buffer,
-- or nothing, the channel being closed.
pub data Reading : Type 0 where
  testing : Reading
  reading : Reading
  sending : ℕ → Reading
  ended : Option Failure → Reading

-- What `processor.Run` is about to do: receive, process the first bytes of a buffer, send a frame on
-- `priorityFramesChan` as it processes them, or nothing, with what it came to.
pub data Processing (S : Type 0) : Type 0 where
  idle : Processing S
  processing : Which → ℕ → Processing S
  blocked : Which → ℕ → Processing S
  ended : Option (Result (S × Framer) S) → Processing S

-- The reader's buffers, what the connection has left, the buffer whose turn it is, the state of the
-- processors, whether the context is cancelled, and the error that `g.Wait` returns.
pub record Reciever (S : Type 0) : Type 0 where
  pub buffer : Which → Bytes
  pub conn : List Bytes
  pub turn : Which
  pub reader : Reading
  pub processor : Processing S
  pub state : S
  pub framer : Framer
  pub cancelled : Bool
  pub error : Option Failure

abbrev pub other : Which → Which
other Which.buf1 = Which.buf2
other Which.buf2 = Which.buf1

-- The buffers after a write to one.
abbrev pub overwrite : (Which → Bytes) → Which → Bytes → Which → Bytes
overwrite f Which.buf1 b Which.buf1 = b
overwrite f Which.buf1 b Which.buf2 = f Which.buf2
overwrite f Which.buf2 b Which.buf1 = f Which.buf1
overwrite f Which.buf2 b Which.buf2 = b

-- The first error stays.
abbrev pub first : Option Failure → Failure → Option Failure
first none e = some e
first (some d) e = some d

module _ {S : Type 0} (handle : Handler S) where
  -- The processor's goroutine after `process`. A panic ends the program.
  unfoldable pub processed : Option (Result (S × Framer) S) → Reciever S → Reciever S
  processed (some (Result.ok (s, p))) t = record t {
    processor = Processing.idle;
    state = s;
    framer = p;
  }
  processed (some (Result.err e s)) t = record t {
    processor = Processing.ended (some (Result.err e s));
    state = s;
    cancelled = true;
    error = first t.error (Failure.processing e);
  }
  processed r t = record t { processor = Processing.ended r; cancelled = true }

  pub data Step : Reciever S → Reciever S → Type 0 where
    test :
        {t : Reciever S}
        → t.reader ≡ Reading.testing
        → t.cancelled ≡ false
        → Step t (record t { reader = Reading.reading })
    -- the loop's own test ends it without an error, and that of `read` with the context's
    stop_loop :
        {t : Reciever S}
        → t.reader ≡ Reading.testing
        → t.turn ≡ Which.buf1
        → t.cancelled ≡ true
        → Step t (record t { reader = Reading.ended none })
    stop_read :
        {t : Reciever S}
        → t.reader ≡ Reading.testing
        → t.cancelled ≡ true
        → Step t (record t {
          reader = Reading.ended (some Failure.context);
          error = first t.error Failure.context;
        })
    read :
        {t : Reciever S}
        → (c junk : Bytes) (cs : List Bytes) → t.reader ≡ Reading.reading
        → t.conn ≡ c ∷ cs
        → length (c ++ junk) ≡ recieve_buffer_size
        → Step t (record t {
          buffer = overwrite t.buffer t.turn (c ++ junk);
          conn = cs;
          reader = Reading.sending (length c);
        })
    fail_read :
        {t : Reciever S}
        → (b : Bytes) → t.reader ≡ Reading.reading
        → length b ≡ recieve_buffer_size
        → Step t (record t {
          buffer = overwrite t.buffer t.turn b;
          reader = Reading.ended (some Failure.reading);
          cancelled = true;
          error = first t.error Failure.reading;
        })
    send :
        {t : Reciever S}
        → (n : ℕ) → t.reader ≡ Reading.sending n
        → t.processor ≡ Processing.idle
        → Step t (record t {
          turn = other t.turn;
          reader = Reading.testing;
          processor = Processing.processing t.turn n;
        })
    stop_send :
        {t : Reciever S}
        → (n : ℕ) → t.reader ≡ Reading.sending n
        → t.cancelled ≡ true
        → Step t (record t {
          reader = Reading.ended (some Failure.context);
          error = first t.error Failure.context;
        })
    finish :
        {t : Reciever S}
        → (w : Which) (n : ℕ) → t.processor ≡ Processing.processing w n
        → Step t (processed (process handle t.framer t.state (take n (t.buffer w))) t)
    -- a processor meets a full channel, and comes to its end when the sender's goroutine has made room
    block :
        {t : Reciever S}
        → (w : Which) (n : ℕ) → t.processor ≡ Processing.processing w n
        → Step t (record t { processor = Processing.blocked w n })
    make_room :
        {t : Reciever S}
        → (w : Which) (n : ℕ) → t.processor ≡ Processing.blocked w n
        → Step t (processed (process handle t.framer t.state (take n (t.buffer w))) t)
    -- the channel is closed
    close :
        {t : Reciever S}
        → (e : Option Failure) → t.processor ≡ Processing.idle
        → t.reader ≡ Reading.ended e
        → Step t (record t { processor = Processing.ended (some (Result.ok (t.state, t.framer))) })
    -- the context is cancelled from outside
    cancel : {t : Reciever S} → t.cancelled ≡ false → Step t (record t { cancelled = true })

  module _ (s : S) (chunks : List Bytes) where
    -- `NewReciever`, when `Run` has started its goroutines.
    abbrev pub new_reciever : Reciever S
    new_reciever = record {
      buffer = λ w. replicate recieve_buffer_size 0;
      conn = chunks;
      turn = Which.buf1;
      reader = Reading.testing;
      processor = Processing.idle;
      state = s;
      framer = new_framer;
      cancelled = false;
      error = none;
    }

    pub data Reach : Reciever S → Type 0 where
      here : Reach new_reciever
      later : {t u : Reciever S} → Reach t → Step t u → Reach u
