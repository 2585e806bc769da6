-- ===== src/Report/Supersimple/Counts.antt =====
-- What the counters count, of streams that come one after the other.
use framer.Base.{
  ℕ, ◌+◌, ◌≡◌, refl, ap, ◌∙◌, List, [], ◌∷◌, Bool, true, false, not, ◌&&◌, ◌||◌, if◌then◌else◌,
  codes, u32, length, arith, inl, inr, Bool-cases, Option-cases,
}
use framer.Datasource.Middleware.{eq_bytes}
use framer.Report.Simple.{Call}
use framer.Utils.SlicePool as SlicePool
use framer.Report.Supersimple.{
  StreamState, Reporter, on_call, on_reporter, acquire, accept, result, u64,
}

-- The calls of one stream.
unfoldable pub calls : List Call → StreamState → StreamState
calls [] s = s
calls (c ∷ cs) s = calls cs (on_call c s)

unfoldable pub calls_reported : List Call → Reporter → Reporter
calls_reported [] a = a
calls_reported (c ∷ cs) a = calls_reported cs (on_reporter c a)

-- Streams from `Acquire` to `End`, one after the other.
unfoldable pub lives : List (List Call) → Reporter → Reporter
lives [] a = a
lives (cs ∷ css) a = lives css (accept (calls cs (acquire a).0) (calls_reported cs (acquire a).1))

-- Whether a call tells of a failure.
abbrev pub fails : Call → Bool
fails Call.first_byte_sent = false
fails Call.last_byte_sent = false
fails (Call.set_size n) = false
fails (Call.on_header name value) =
    eq_bytes name (codes "grpc-status") && not (eq_bytes value (codes "0"))
fails _ = true

unfoldable pub is_failed : List Call → Bool
is_failed [] = false
is_failed (c ∷ cs) = fails c || is_failed cs

-- How many streams have failed, and how many have not; and the sizes that are told.
unfoldable pub failed : List (List Call) → ℕ
failed [] = 0
failed (cs ∷ css) = (if is_failed cs then 1 else 0) + failed css

unfoldable pub passed : List (List Call) → ℕ
passed [] = 0
passed (cs ∷ css) = (if is_failed cs then 0 else 1) + passed css

abbrev pub told_size : Call → ℕ
told_size (Call.set_size n) = n
told_size _ = 0

unfoldable pub size_of : List Call → ℕ
size_of [] = 0
size_of (c ∷ cs) = told_size c + size_of cs

unfoldable pub sizes : List (List Call) → ℕ
sizes [] = 0
sizes (cs ∷ css) = size_of cs + sizes css

on_call-fails : (c : Call) (s : StreamState) → (on_call c s).no_ok ≡ (fails c || s.no_ok)
unfolding on_call
on_call-fails Call.first_byte_sent s = refl
on_call-fails Call.last_byte_sent s = refl
on_call-fails Call.request_error s = refl
on_call-fails Call.io_error s = refl
on_call-fails Call.go_away s = refl
on_call-fails Call.timeout s = refl
on_call-fails (Call.set_size n) s = refl
on_call-fails (Call.rst_stream n) s = refl
on_call-fails (Call.on_header name value) s =
    elim (Bool-cases (eq_bytes name (codes "grpc-status") && not (eq_bytes value (codes "0")))) [
      | inl p ↦ rw (p, on_call) refl
      | inr p ↦ rw (p, on_call) refl
    ]

or_swap : (a b c : Bool) → (a || (b || c)) ≡ ((b || a) || c)
or_swap true true c = refl
or_swap true false c = refl
or_swap false true c = refl
or_swap false false c = refl

calls-is_failed :
    (cs : List Call) (s : StreamState) → (calls cs s).no_ok ≡ (is_failed cs || s.no_ok)
unfolding calls is_failed
calls-is_failed [] s = refl
calls-is_failed (c ∷ cs) s =
    calls-is_failed cs (on_call c s)
    ∙ ap (λ b. is_failed cs || b) (on_call-fails c s)
    ∙ or_swap (is_failed cs) (fails c) s.no_ok

-- Calls change the size alone.
record Kept (told : ℕ) (a b : Reporter) : Type 0 where
  pub ok : b.ok ≡ a.ok
  pub nook : b.nook ≡ a.nook
  pub req : b.req ≡ a.req
  pub size : u64 b.size ≡ u64 (a.size + told)

nothing_told : (a : Reporter) → Kept 0 a a
nothing_told a = record { ok = refl; nook = refl; req = refl; size = ap u64 (omega arith) }

on_reporter-Kept : (c : Call) (a : Reporter) → Kept (told_size c) a (on_reporter c a)
unfolding on_reporter
on_reporter-Kept (Call.set_size n) a = record {
  ok = refl;
  nook = refl;
  req = refl;
  size = omega arith;
}
on_reporter-Kept Call.first_byte_sent a = nothing_told a
on_reporter-Kept Call.last_byte_sent a = nothing_told a
on_reporter-Kept Call.request_error a = nothing_told a
on_reporter-Kept Call.io_error a = nothing_told a
on_reporter-Kept Call.go_away a = nothing_told a
on_reporter-Kept Call.timeout a = nothing_told a
on_reporter-Kept (Call.rst_stream c) a = nothing_told a
on_reporter-Kept (Call.on_header n v) a = nothing_told a

calls_reported-Kept : (cs : List Call) (a : Reporter) → Kept (size_of cs) a (calls_reported cs a)
unfolding calls_reported size_of
calls_reported-Kept [] a = nothing_told a
calls_reported-Kept (c ∷ cs) a =
    let k = on_reporter-Kept c a in
    let l = calls_reported-Kept cs (on_reporter c a) in
    record {
      ok = l.ok ∙ k.ok;
      nook = l.nook ∙ k.nook;
      req = l.req ∙ k.req;
      size = omega (arith, l.size, k.size);
    }

-- A reporter after streams of which some have failed.
record Counted (failures passes streams told : ℕ) (a b : Reporter) : Type 0 where
  pub ok : u32 b.ok ≡ u32 (a.ok + passes)
  pub nook : u32 b.nook ≡ u32 (a.nook + failures)
  pub req : u32 b.req ≡ u32 (a.req + streams)
  pub size : u64 b.size ≡ u64 (a.size + told)

accept-Counted :
    (s : StreamState) (a b : Reporter) (told : ℕ)
    → Kept told a b
    → Counted (if s.no_ok then 1 else 0) (if s.no_ok then 0 else 1) 0 told a (accept s b)
unfolding accept result
accept-Counted s a b told k = elim (Bool-cases s.no_ok) [
  | inl p ↦
      rw (p, accept)
        (record {
          ok = omega (arith, k.ok);
          nook = omega (arith, k.nook);
          req = omega (arith, k.req);
          size = k.size;
        })
  | inr p ↦
      rw (p, accept)
        (record {
          ok = omega (arith, k.ok);
          nook = omega (arith, k.nook);
          req = omega (arith, k.req);
          size = k.size;
        })
]

acquired :
    (a : Reporter)
    → ((acquire a).0.no_ok ≡ false)
      × ((acquire a).1.ok ≡ a.ok)
      × ((acquire a).1.nook ≡ a.nook)
      × ((acquire a).1.req ≡ u32 (a.req + 1))
      × ((acquire a).1.size ≡ a.size)
unfolding acquire
acquired a = elim (Option-cases (SlicePool.acquire a.pool)) [
  | inl p ↦ rw (p, acquire) (refl, refl, refl, refl, refl)
  | inr (r, p) ↦ rw (p, acquire) (refl, refl, refl, refl, refl)
]

or_false : (b : Bool) → (b || false) ≡ b
or_false true = refl
or_false false = refl

-- Whatever states the pool holds, after streams that come one after the other the counters have grown, on
-- 32 and 64 bits, by these: `ok` by the number of streams of which no call told a failure, where a failure
-- is an error, a reset, a GOAWAY, a timeout or a status of gRPC other than 0; `nook` by the number of the
-- others; `req` by that of all; and `size` by the sizes that were told.
pub lives-counters :
    (css : List (List Call)) (a : Reporter)
    → (u32 (lives css a).ok ≡ u32 (a.ok + passed css))
      × (u32 (lives css a).nook ≡ u32 (a.nook + failed css))
      × (u32 (lives css a).req ≡ u32 (a.req + length css))
      × (u64 (lives css a).size ≡ u64 (a.size + sizes css))
unfolding lives passed failed sizes
lives-counters [] a =
    (ap u32 (omega arith), ap u32 (omega arith), ap u32 (omega arith), ap u64 (omega arith))
lives-counters (cs ∷ css) a =
    let (fresh, ok, nook, req, size) = acquired a in
    let s = calls cs (acquire a).0 in
    let k = accept-Counted s (acquire a).1 _ (size_of cs) (calls_reported-Kept cs (acquire a).1) in
    let told : s.no_ok ≡ is_failed cs =
      calls-is_failed cs (acquire a).0
      ∙ ap (λ b. is_failed cs || b) fresh
      ∙ or_false (is_failed cs) in
    let (x, y, z, w) = lives-counters css (accept s (calls_reported cs (acquire a).1)) in
    (
      omega (arith, x, k.ok, ok, ap {B = ℕ} (λ b. if b then 0 else 1) told),
      omega (arith, y, k.nook, nook, ap {B = ℕ} (λ b. if b then 1 else 0) told),
      omega (arith, z, k.req, req),
      omega (arith, w, k.size, size),
    )
