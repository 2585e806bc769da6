-- ===== src/Report/Phout/Fields.antt =====
-- The fields of a stream's state after its calls, from the calls alone.
use framer.Base.{
  ℕ, ◌≡◌, refl, ap, ◌∙◌, Bytes, List, [], ◌∷◌, Option, none, some, Bool, true, false, if◌then◌else◌,
  codes, Bool-cases, inl, inr,
}
use framer.Datasource.Middleware.{eq_bytes}
use framer.Utils.Lru.Recency.{same_bytes}
use framer.Report.Phout.{StreamState, Call, on_call, on_calls}

-- What the last call says of which `f` reads something.
unfoldable pub last : {A : Type 0} → (Call → Option A) → A → List Call → A
last f d [] = d
last f d (c ∷ cs) = last f (elim (f c) [ none ↦ d | some a ↦ a ]) cs

pub on_calls-last :
    {A : Type 0} (field : StreamState → A) (f : Call → Option A)
    → ((c : Call) (s : StreamState)
        → field (on_call c s) ≡ elim (f c) [ none ↦ field s | some a ↦ a ])
    → (cs : List Call) (s : StreamState) → field (on_calls cs s) ≡ last f (field s) cs
unfolding on_calls last
on_calls-last field f law [] s = refl
on_calls-last field f law (c ∷ cs) s =
    on_calls-last field f law cs (on_call c s) ∙ ap (λ d. last f d cs) (law c s)

-- What a call says of each field.
abbrev pub says_request_error : Call → Option Bool
says_request_error Call.request_error = some true
says_request_error _ = none

abbrev pub says_timeout : Call → Option Bool
says_timeout Call.timeout = some true
says_timeout _ = none

abbrev pub says_size : Call → Option ℕ
says_size (Call.set_size n) = some n
says_size _ = none

abbrev pub says_rst : Call → Option (Option ℕ)
says_rst (Call.rst_stream c) = some (some c)
says_rst _ = none

abbrev pub says_go_away : Call → Option (Option ℕ)
says_go_away (Call.go_away c) = some (some c)
says_go_away _ = none

abbrev pub says_io : Call → Option (Option (Option ℕ))
says_io (Call.io_error e) = some (some e)
says_io _ = none

abbrev pub says_nothing : {A : Type 0} → Call → Option A
says_nothing _ = none

-- The value of a header of this name.
abbrev pub says_header : Bytes → Call → Option Bytes
says_header name (Call.on_header n v) = if eq_bytes n name then some v else none
says_header name _ = none

-- A header leaves the fields of other calls as they are.
pub header_keeps :
    {A : Type 0} (field : StreamState → A) (n v : Bytes) (s : StreamState)
    → ((w : Bytes) → field (record s { grpc_code_header = w }) ≡ field s)
    → ((w : Bytes) → field (record s { http2_code_header = w }) ≡ field s)
    → field (on_call (Call.on_header n v) s) ≡ field s
unfolding on_call
header_keeps field n v s f g = elim (Bool-cases (eq_bytes n (codes "grpc-status"))) [
  | inl p ↦ rw (p, on_call) (f v)
  | inr p ↦ elim (Bool-cases (eq_bytes n (codes ":status"))) [
    | inl q ↦ rw (p, q, on_call) (g v)
    | inr q ↦ rw (p, q, on_call) refl
  ]
]

-- A header's name is one of the two, not both.
pub not_status :
    (n : Bytes) → eq_bytes n (codes "grpc-status") ≡ true → eq_bytes n (codes ":status") ≡ false
not_status n e = ap (λ n. eq_bytes n (codes ":status")) (same_bytes n (codes "grpc-status") e)
