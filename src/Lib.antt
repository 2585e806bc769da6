-- ===== src/Lib.antt =====
-- Verification of framer, a gRPC load generator (https://github.com/ozontech/framer).
--
-- The program. A loader (loader/loader.go) owns one HTTP/2 connection. Its sender takes requests, turns
-- each into frames, and hands the frames, as far as the flow-control windows let them through, to a
-- goroutine that batches them into writes. Its receiver cuts what arrives into frames and passes each
-- piece of a frame to the processor of the frame's type; processors release the limiter, end streams
-- and take them from the store, add to windows, and send frames of their own through the batching
-- goroutine's priority channel. Requests come from files that framer reads, writes and converts.
--
-- The modules, and the code that each models:
--   Base            numbers, bytes, lists and bit operations that all parts share
--   Http2           the frame types and flags that are used, of golang.org/x/net/http2
--   FrameHeader     frameheader/frameheader.go: the nine bytes of a frame's header
--   Reciever        loader/reciever: Framer is framer.go (`Next`); Loop is `process` and `Run` of
--                   processor.go over any table of processors; World is what processors act on;
--                   Processors, Headers and Dispatch are the processors and the table of processor.go;
--                   Buffers is reciever.go, the goroutines that read and that run the processors
--   Streams         loader/streams: Store is store/store.go, Limiter is limiter/limiter.go, Pool is
--                   pool/pool.go; FlowControl is loader/flowcontrol/flowcontrol.go
--   Sender          loader/sender/sender.go: Send is `send`, Batched is `batchedProcessor`, Instant is
--                   `instantProcessor`
--   Loader          TimeoutQueue is loader/timeout_queue.go; Setup and Run are loader/loader.go: Setup is
--                   `NewLoader` with the handshake, Run what `runReciever` does with the receiver's end
--                   and the goroutine of timeouts
--   Datasource      Request is datasource/request.go (`SetUp`), Middleware is
--                   datasource/meta_middleware.go
--   Formats         Escape is formats/internal/json/escape.go, BinaryIo is
--                   formats/grpc/ozon/binary/io/io.go, BinaryEncoding is
--                   formats/grpc/ozon/binary/encoding with formats/model, Converter is
--                   formats/converter/processor.go, MetaJson is formats/internal/kv/json/jsonkv.go
--   Report          Simple is report/simple/simple.go, Phout is report/phout/phout.go,
--                   Supersimple is report/supersimple/supersimple.go
--   Utils           SlicePool is utils/pool/pool.go, Lru is utils/lru/lru.go
-- Each module has a definition for each function of its code; the comment above a definition names the
-- function. Child modules hold the proofs, and Tests the runs on concrete inputs.
--
-- How the code is modelled. A method is a function from the receiver's state to its state after the
-- call. A panic is `none` or a constructor of the result; an error is a value, with the state that it
-- leaves. Machine integers are natural numbers with their wrap-around written out. A method that holds
-- a lock throughout is one step, and one that waits on a condition is one step up to the wait; the
-- goroutines' steps then interleave in any order, in a relation (Schedules of the limiter, the window
-- and the timeout queue; Step of the converter and of the receiver). In the receiver's, a processor may
-- wait for room in the priority channel, for ever if the sender's goroutine has returned. What a `select`
-- receives is a list of events. What the processors do to streams, windows, limiter and connection is a
-- trace of effects, and the store is any implementation of the interface Streams.Store.Interface, which
-- both stores fill.
--
-- Bounds and fuel. The receiving loop takes a byte at least in each round but the last, so the length
-- of a buffer and one more is its fuel; the loops of `SetUp` and of `EscapeStringAppend` take a byte at
-- least in each round, and have the length of what is left and one more; the decimal digits of a number
-- have the number and one more. That the fuel is enough is part of the theorems about them. All other
-- loops are by recursion on a list.
--
-- Parameters. The HPACK encoder and decoder of golang.org/x/net are parameters, as are the flags' `Has`
-- and the middleware's list of headers, and what the reads and the writes of a connection do.
-- `utf8.DecodeRune` is a parameter with its documented behaviour. What `io.Reader.Read` returns is a
-- list, without the bytes that come with an error, which the code drops; and what a window's `Wait`
-- answers to `send` is a function.
--
-- Not modelled: the start of the goroutines in `Run` and `Shutdown` of loader/loader.go and in
-- cmd/framer, since they are calls of the network and of the parts above; the multi report, which passes
-- calls on; the JSON requests, which call protobuf reflection, and the reading of metadata, which calls
-- a JSON lexer; the scheduler and the data sources' reading of files; time, which enters the timeout
-- queue as a clock that does not go back; and examples, benchmarks and generated code.
pub mod Base
pub mod Datasource
pub mod Formats
pub mod FrameHeader
pub mod Http2
pub mod Loader
pub mod Reciever
pub mod Report
pub mod Sender
pub mod Streams
pub mod Utils
