-- ===== src/Report/Phout/Calls.antt =====
-- What each call says of each field of a stream's state.
use framer.Base.{◌≡◌, refl, ◌∙◌, List, [], ◌∷◌, none, some, codes, Bool-cases, inl, inr}
use framer.Datasource.Middleware.{eq_bytes}
use framer.Report.Phout.{StreamState, Call, on_call, on_calls}
use framer.Report.Phout.Fields.{
  last, on_calls-last, says_nothing, says_request_error, says_timeout, says_size, says_rst,
  says_go_away, says_io, says_header, header_keeps, not_status,
}

pub request_error-law :
    (c : Call) (s : StreamState)
    → (on_call c s).request_error
      ≡ elim (says_request_error c) [ none ↦ s.request_error | some a ↦ a ]
unfolding on_call
request_error-law Call.first_byte_sent s = refl
request_error-law Call.last_byte_sent s = refl
request_error-law Call.request_error s = refl
request_error-law Call.timeout s = refl
request_error-law (Call.set_size n) s = refl
request_error-law (Call.rst_stream n) s = refl
request_error-law (Call.go_away n) s = refl
request_error-law (Call.io_error e) s = refl
request_error-law (Call.on_header n v) s =
    header_keeps (λ s. s.request_error) n v s (λ w. refl) (λ w. refl)

pub timeouted-law :
    (c : Call) (s : StreamState)
    → (on_call c s).timeouted ≡ elim (says_timeout c) [ none ↦ s.timeouted | some a ↦ a ]
unfolding on_call
timeouted-law Call.first_byte_sent s = refl
timeouted-law Call.last_byte_sent s = refl
timeouted-law Call.request_error s = refl
timeouted-law Call.timeout s = refl
timeouted-law (Call.set_size n) s = refl
timeouted-law (Call.rst_stream n) s = refl
timeouted-law (Call.go_away n) s = refl
timeouted-law (Call.io_error e) s = refl
timeouted-law (Call.on_header n v) s = header_keeps (λ s. s.timeouted) n v s (λ w. refl) (λ w. refl)

pub req_size-law :
    (c : Call) (s : StreamState)
    → (on_call c s).req_size ≡ elim (says_size c) [ none ↦ s.req_size | some a ↦ a ]
unfolding on_call
req_size-law Call.first_byte_sent s = refl
req_size-law Call.last_byte_sent s = refl
req_size-law Call.request_error s = refl
req_size-law Call.timeout s = refl
req_size-law (Call.set_size n) s = refl
req_size-law (Call.rst_stream n) s = refl
req_size-law (Call.go_away n) s = refl
req_size-law (Call.io_error e) s = refl
req_size-law (Call.on_header n v) s = header_keeps (λ s. s.req_size) n v s (λ w. refl) (λ w. refl)

pub rst_stream_code-law :
    (c : Call) (s : StreamState)
    → (on_call c s).rst_stream_code ≡ elim (says_rst c) [ none ↦ s.rst_stream_code | some a ↦ a ]
unfolding on_call
rst_stream_code-law Call.first_byte_sent s = refl
rst_stream_code-law Call.last_byte_sent s = refl
rst_stream_code-law Call.request_error s = refl
rst_stream_code-law Call.timeout s = refl
rst_stream_code-law (Call.set_size n) s = refl
rst_stream_code-law (Call.rst_stream n) s = refl
rst_stream_code-law (Call.go_away n) s = refl
rst_stream_code-law (Call.io_error e) s = refl
rst_stream_code-law (Call.on_header n v) s =
    header_keeps (λ s. s.rst_stream_code) n v s (λ w. refl) (λ w. refl)

pub go_away_code-law :
    (c : Call) (s : StreamState)
    → (on_call c s).go_away_code ≡ elim (says_go_away c) [ none ↦ s.go_away_code | some a ↦ a ]
unfolding on_call
go_away_code-law Call.first_byte_sent s = refl
go_away_code-law Call.last_byte_sent s = refl
go_away_code-law Call.request_error s = refl
go_away_code-law Call.timeout s = refl
go_away_code-law (Call.set_size n) s = refl
go_away_code-law (Call.rst_stream n) s = refl
go_away_code-law (Call.go_away n) s = refl
go_away_code-law (Call.io_error e) s = refl
go_away_code-law (Call.on_header n v) s =
    header_keeps (λ s. s.go_away_code) n v s (λ w. refl) (λ w. refl)

pub io_err-law :
    (c : Call) (s : StreamState)
    → (on_call c s).io_err ≡ elim (says_io c) [ none ↦ s.io_err | some a ↦ a ]
unfolding on_call
io_err-law Call.first_byte_sent s = refl
io_err-law Call.last_byte_sent s = refl
io_err-law Call.request_error s = refl
io_err-law Call.timeout s = refl
io_err-law (Call.set_size n) s = refl
io_err-law (Call.rst_stream n) s = refl
io_err-law (Call.go_away n) s = refl
io_err-law (Call.io_error e) s = refl
io_err-law (Call.on_header n v) s = header_keeps (λ s. s.io_err) n v s (λ w. refl) (λ w. refl)

pub grpc_code_header-law :
    (c : Call) (s : StreamState)
    → (on_call c s).grpc_code_header
      ≡ elim (says_header (codes "grpc-status") c) [ none ↦ s.grpc_code_header | some a ↦ a ]
unfolding on_call
grpc_code_header-law Call.first_byte_sent s = refl
grpc_code_header-law Call.last_byte_sent s = refl
grpc_code_header-law Call.request_error s = refl
grpc_code_header-law Call.timeout s = refl
grpc_code_header-law (Call.set_size n) s = refl
grpc_code_header-law (Call.rst_stream n) s = refl
grpc_code_header-law (Call.go_away n) s = refl
grpc_code_header-law (Call.io_error e) s = refl
grpc_code_header-law (Call.on_header n v) s = elim (Bool-cases (eq_bytes n (codes "grpc-status"))) [
  | inl p ↦ rw (p, on_call) refl
  | inr p ↦ elim (Bool-cases (eq_bytes n (codes ":status"))) [
    | inl q ↦ rw (p, q, on_call) refl
    | inr q ↦ rw (p, q, on_call) refl
  ]
]

pub http2_code_header-law :
    (c : Call) (s : StreamState)
    → (on_call c s).http2_code_header
      ≡ elim (says_header (codes ":status") c) [ none ↦ s.http2_code_header | some a ↦ a ]
unfolding on_call
http2_code_header-law Call.first_byte_sent s = refl
http2_code_header-law Call.last_byte_sent s = refl
http2_code_header-law Call.request_error s = refl
http2_code_header-law Call.timeout s = refl
http2_code_header-law (Call.set_size n) s = refl
http2_code_header-law (Call.rst_stream n) s = refl
http2_code_header-law (Call.go_away n) s = refl
http2_code_header-law (Call.io_error e) s = refl
http2_code_header-law (Call.on_header n v) s =
    elim (Bool-cases (eq_bytes n (codes "grpc-status"))) [
      | inl p ↦ rw (p, not_status n p, on_call) refl
      | inr p ↦ elim (Bool-cases (eq_bytes n (codes ":status"))) [
        | inl q ↦ rw (p, q, on_call) refl
        | inr q ↦ rw (p, q, on_call) refl
      ]
    ]

tag-law : (c : Call) (s : StreamState) → (on_call c s).tag ≡ s.tag
unfolding on_call
tag-law Call.first_byte_sent s = refl
tag-law Call.last_byte_sent s = refl
tag-law Call.request_error s = refl
tag-law Call.timeout s = refl
tag-law (Call.set_size n) s = refl
tag-law (Call.rst_stream n) s = refl
tag-law (Call.go_away n) s = refl
tag-law (Call.io_error e) s = refl
tag-law (Call.on_header n v) s = header_keeps (λ s. s.tag) n v s (λ w. refl) (λ w. refl)

start_time-law : (c : Call) (s : StreamState) → (on_call c s).start_time ≡ s.start_time
unfolding on_call
start_time-law Call.first_byte_sent s = refl
start_time-law Call.last_byte_sent s = refl
start_time-law Call.request_error s = refl
start_time-law Call.timeout s = refl
start_time-law (Call.set_size n) s = refl
start_time-law (Call.rst_stream n) s = refl
start_time-law (Call.go_away n) s = refl
start_time-law (Call.io_error e) s = refl
start_time-law (Call.on_header n v) s =
    header_keeps (λ s. s.start_time) n v s (λ w. refl) (λ w. refl)

last_nothing : {A : Type 0} (d : A) (cs : List Call) → last says_nothing d cs ≡ d
unfolding last
last_nothing d [] = refl
last_nothing d (c ∷ cs) = last_nothing d cs

-- No call changes the tag and the time of the start.
pub on_calls-tag : (cs : List Call) (s : StreamState) → (on_calls cs s).tag ≡ s.tag
on_calls-tag cs s = on_calls-last (λ s. s.tag) says_nothing tag-law cs s ∙ last_nothing s.tag cs

pub on_calls-start_time :
    (cs : List Call) (s : StreamState) → (on_calls cs s).start_time ≡ s.start_time
on_calls-start_time cs s =
    on_calls-last (λ s. s.start_time) says_nothing start_time-law cs s
    ∙ last_nothing s.start_time cs
