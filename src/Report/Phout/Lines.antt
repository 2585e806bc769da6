-- ===== src/Report/Phout/Lines.antt =====
-- The lines that the report writes of streams that come one after the other.
use framer.Base.{
  ◌-◌, ◌≡◌, refl, sym, ap, ap₂, ◌∙◌, Bytes, List, [], ◌∷◌, ◌++◌, none, some, false, codes, All,
  append_assoc, append-nil, map, inl, inr, Option-cases,
}
use framer.Utils.SlicePool as SlicePool
use framer.Report.Phout.{
  StreamState, Reporter, proto_code, new_state, reset, on_calls, result, acquire, end_stream, run,
}
use framer.Report.Phout.Fields.{
  last, on_calls-last, says_request_error, says_timeout, says_size, says_rst, says_go_away, says_io,
  says_header,
}
use framer.Report.Phout.Calls.{
  on_calls-tag, on_calls-start_time, request_error-law, timeouted-law, req_size-law,
  rst_stream_code-law, go_away_code-law, io_err-law, grpc_code_header-law, http2_code_header-law,
}
use framer.Report.Phout.Columns.{columns, code_of, proto_code-code_of}
use framer.Report.Phout.Rows.{
  Life, started, header_of, row, columns_of, IsClean, joined, joined_all, line_of, line_of-columns,
}

-- From `Acquire` to the line.
unfoldable pub live : Life → Reporter → Reporter
live l r =
    let (s, q) = acquire l.tag l.start_time r in run (end_stream l.end_time (on_calls l.calls s) q)

unfoldable pub lives : List Life → Reporter → Reporter
lives [] r = r
lives (l ∷ ls) r = lives ls (live l r)

-- What `result` writes, in columns.
result-joined :
    (s : StreamState)
    → result s
      ≡ joined
          (started s.start_time)
          (row s.tag (s.end_time - s.start_time) s.req_size s.io_err (proto_code s))
unfolding result row
result-joined s = simp append_assoc

-- A state after `reset`, its calls and `End`, whatever it was used for before.
unfoldable used : Life → StreamState → StreamState
unfolding reset
used l s = record (on_calls l.calls (reset l.tag l.start_time s)) { end_time = l.end_time }

module _ (l : Life) (s : StreamState) where
  used-proto_code :
      proto_code (used l s)
      ≡ code_of
          (last says_request_error false l.calls)
          (last says_rst none l.calls)
          (last says_go_away none l.calls)
          (last says_timeout false l.calls)
          (header_of (codes ":status") l.calls)
          (header_of (codes "grpc-status") l.calls)
  unfolding used
  used-proto_code =
      let r = reset l.tag l.start_time s in
      proto_code-code_of (used l s)
      ∙ rw
          (
            on_calls-last (λ s. s.request_error) says_request_error request_error-law l.calls r,
            on_calls-last (λ s. s.rst_stream_code) says_rst rst_stream_code-law l.calls r,
            on_calls-last (λ s. s.go_away_code) says_go_away go_away_code-law l.calls r,
            on_calls-last (λ s. s.timeouted) says_timeout timeouted-law l.calls r,
            on_calls-last (λ s. s.http2_code_header) (says_header (codes ":status"))
                http2_code_header-law l.calls r,
            on_calls-last (λ s. s.grpc_code_header) (says_header (codes "grpc-status"))
                grpc_code_header-law l.calls r,
          )
          refl

  used-columns_of :
      started (used l s).start_time
        ∷ row
            (used l s).tag
            ((used l s).end_time - (used l s).start_time)
            (used l s).req_size
            (used l s).io_err
            (proto_code (used l s))
      ≡ columns_of l
  unfolding used columns_of
  used-columns_of =
      let r = reset l.tag l.start_time s in
      rw
        (
          used-proto_code,
          on_calls-start_time l.calls r,
          on_calls-tag l.calls r,
          on_calls-last (λ s. s.req_size) says_size req_size-law l.calls r,
          on_calls-last (λ s. s.io_err) says_io io_err-law l.calls r,
        )
        refl

  used-line_of : result (used l s) ≡ line_of l
  unfolding line_of
  used-line_of = result-joined (used l s) ∙ ap (λ cs. joined_all cs) used-columns_of

live_lem :
    (l : Life) (r : Reporter)
    → r.ch ≡ []
    → (s : StreamState) × ((live l r).written ≡ r.written ++ result (used l s) ∷ [])
      × ((live l r).ch ≡ [])
unfolding live acquire end_stream run used
live_lem l r e = elim (Option-cases (SlicePool.acquire r.pool)) [
  | inl p ↦ (new_state, rw (p, live, acquire, e) refl, rw (p, live, acquire, e) refl)
  | inr ((s, pool), p) ↦ (s, rw (p, live, acquire, e) refl, rw (p, live, acquire, e) refl)
]

-- A line for each stream, in order, whatever the streams are told.
pub lives-line_of :
    (ls : List Life) (r : Reporter) → r.ch ≡ [] → (lives ls r).written ≡ r.written ++ map line_of ls
unfolding lives
lives-line_of [] r e = sym (append-nil r.written)
lives-line_of (l ∷ ls) r e =
    let (s, f, g) = live_lem l r e in
    lives-line_of ls (live l r) g
    ∙ ap (λ ws. ws ++ map line_of ls) (f ∙ ap (λ w. r.written ++ w ∷ []) (used-line_of l s))
    ∙ append_assoc r.written (line_of l ∷ []) (map line_of ls)

lines-columns_of :
    (ls : List Life)
    → All IsClean ls
    → map columns (map line_of ls) ≡ map (λ l. some (columns_of l)) ls
lines-columns_of [] h = refl
lines-columns_of (l ∷ ls) (h, hs) = ap₂ (◌∷◌) (line_of-columns l h) (lines-columns_of ls hs)

-- Of streams that come one after the other, whatever states the pool holds and whatever else the streams
-- are told: if nothing waits in the channel before, and no tag and no status of gRPC has a tab or a line
-- break, then `Run` adds to what is written the lines `ws`, one for each stream, in order. Each is the
-- columns of its stream with tabs between and a line break at the end; and cut at its tabs, with the
-- line break at its end and none before, it has the twelve columns again: the times, the tag and the
-- size that were told last, the error number of the connection, and the code by what was told last of
-- the request's error, RST_STREAM, GOAWAY, the timeout and the two statuses.
pub lives-columns_of :
    (ls : List Life) (r : Reporter)
    → r.ch ≡ []
    → All IsClean ls
    → (ws : List Bytes) × ((lives ls r).written ≡ r.written ++ ws)
      × (ws ≡ map (λ l. joined_all (columns_of l)) ls)
      × (map columns ws ≡ map (λ l. some (columns_of l)) ls)
lives-columns_of ls r e h =
    (map line_of ls, lives-line_of ls r e, unfold line_of in refl, lines-columns_of ls h)
