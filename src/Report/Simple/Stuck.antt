-- ===== src/Report/Simple/Stuck.antt =====
-- What `reset` leaves: a state that was told of a GOAWAY or of a request's error, and is used again.
use framer.Base.{
  ◌+◌, ◌≡◌, refl, sym, ap, ◌∙◌, subst, List, [], ◌∷◌, some, Bool, true, false, ◌||◌, length, u32,
  codes, arith, inl, inr, Bool-cases,
}
use framer.Datasource.Middleware.{eq_bytes}
use framer.Report.Simple.{
  StreamState, Call, Reporter, on_call, on_reporter, acquire, accept, result, reset,
}
use framer.Report.Simple.Counts.{acquire-counters, on_reporter-counters}
use framer.Utils.SlicePool.{release, acquire-release}
use framer.Utils.SlicePool as SlicePool

-- The calls of one stream.
pub calls : List Call → StreamState → StreamState
calls [] s = s
calls (c ∷ cs) s = calls cs (on_call c s)

pub calls_reported : List Call → Reporter → Reporter
calls_reported [] a = a
calls_reported (c ∷ cs) a = calls_reported cs (on_reporter c a)

-- A stream from `Acquire` to `End`.
pub life : List Call → Reporter → Reporter
life cs a = accept (calls cs (acquire a).0) (calls_reported cs (acquire a).1)

-- One stream after the other.
pub lives : List (List Call) → Reporter → Reporter
lives [] a = a
lives (cs ∷ css) a = lives css (life cs a)

abbrev pub tells : Call → Bool
tells Call.go_away = true
tells Call.request_error = true
tells _ = false

-- Whether a GOAWAY or a request's error is among the calls.
abbrev pub told : List Call → Bool
told [] = false
told (c ∷ cs) = tells c || told cs

abbrev IsStuck : StreamState → Type 0
IsStuck s = (s.go_away || s.request_err) ≡ true

or_right : (b : Bool) → (b || true) ≡ true
or_right true = refl
or_right false = refl

on_call-IsStuck : (c : Call) (s : StreamState) → IsStuck s → IsStuck (on_call c s)
unfolding on_call
on_call-IsStuck Call.first_byte_sent s h = h
on_call-IsStuck Call.last_byte_sent s h = h
on_call-IsStuck Call.request_error s h = or_right s.go_away
on_call-IsStuck Call.io_error s h = h
on_call-IsStuck Call.go_away s h = refl
on_call-IsStuck Call.timeout s h = h
on_call-IsStuck (Call.set_size n) s h = h
on_call-IsStuck (Call.rst_stream n) s h = h
on_call-IsStuck (Call.on_header n v) s h = elim (Bool-cases (eq_bytes n (codes "grpc-status"))) [
  | inl e ↦ rw e h
  | inr e ↦ elim (Bool-cases (eq_bytes n (codes "grpc-message"))) [
    | inl f ↦ rw (e, f) h
    | inr f ↦ rw (e, f) h
  ]
]

tells-IsStuck : (c : Call) (s : StreamState) → tells c ≡ true → IsStuck (on_call c s)
unfolding on_call
tells-IsStuck Call.request_error s h = or_right s.go_away
tells-IsStuck Call.go_away s h = refl
tells-IsStuck Call.first_byte_sent s h = cc
tells-IsStuck Call.last_byte_sent s h = cc
tells-IsStuck Call.io_error s h = cc
tells-IsStuck Call.timeout s h = cc
tells-IsStuck (Call.set_size n) s h = cc
tells-IsStuck (Call.rst_stream n) s h = cc
tells-IsStuck (Call.on_header n v) s h = cc

calls-IsStuck : (cs : List Call) (s : StreamState) → IsStuck s → IsStuck (calls cs s)
unfolding calls
calls-IsStuck [] s h = h
calls-IsStuck (c ∷ cs) s h = calls-IsStuck cs (on_call c s) (on_call-IsStuck c s h)

told-IsStuck : (cs : List Call) (s : StreamState) → told cs ≡ true → IsStuck (calls cs s)
unfolding calls
told-IsStuck [] s h = cc
told-IsStuck (c ∷ cs) s h = elim (Bool-cases (tells c)) [
  | inl e ↦ calls-IsStuck cs (on_call c s) (tells-IsStuck c s e)
  | inr e ↦ told-IsStuck cs (on_call c s) (rw e at h)
]

result-IsStuck : (s : StreamState) → IsStuck s → result s ≡ false
unfolding result
result-IsStuck s h = ground arith

reset-IsStuck : (s : StreamState) → IsStuck s → IsStuck (reset s)
unfolding reset
reset-IsStuck s h = h

accept_failed :
    (s : StreamState) (a : Reporter)
    → result s ≡ false
    → accept s a ≡ record a { ok = u32 (a.ok + 1); pool = release a.pool s }
unfolding accept
accept_failed s a e = rw (e, accept) refl

calls_reported-counters :
    (cs : List Call) (a : Reporter)
    → ((calls_reported cs a).ok ≡ a.ok)
      × ((calls_reported cs a).nook ≡ a.nook)
      × ((calls_reported cs a).pool ≡ a.pool)
unfolding calls_reported
calls_reported-counters [] a = (refl, refl, refl)
calls_reported-counters (c ∷ cs) a =
    let (p, q, r) = calls_reported-counters cs (on_reporter c a) in
    let (ok, nook, req, pool) = on_reporter-counters c a in (p ∙ ok, q ∙ nook, r ∙ pool)

-- A stream whose state is stuck in the end is counted in `ok`, and its state is the next to be used.
life_stuck :
    (cs : List Call) (a : Reporter)
    → IsStuck (calls cs (acquire a).0)
    → ((life cs a).ok ≡ u32 (a.ok + 1))
      × ((life cs a).nook ≡ a.nook)
      × ((life cs a).pool ≡ release (acquire a).1.pool (calls cs (acquire a).0))
unfolding life
life_stuck cs a h =
    let s = calls cs (acquire a).0 in
    let b = calls_reported cs (acquire a).1 in
    let e = accept_failed s b (result-IsStuck s h) in
    let (p, q, r) = calls_reported-counters cs (acquire a).1 in
    let (ok, nook, req) = acquire-counters a in
    (
      ap (λ x. x.ok) e ∙ ap (λ n. u32 (n + 1)) (p ∙ ok),
      ap (λ x. x.nook) e ∙ q ∙ nook,
      ap (λ x. x.pool) e ∙ ap (λ t. release t s) r,
    )

reused :
    (a : Reporter) (rest : List StreamState) (s : StreamState)
    → a.pool ≡ release rest s
    → (acquire a).0 ≡ reset s
unfolding acquire
reused a rest s e =
    let taken : SlicePool.acquire a.pool ≡ some (s, rest) =
      ap SlicePool.acquire e ∙ acquire-release rest s in
    rw (taken, acquire) refl

lives_stuck :
    (css : List (List Call)) (a : Reporter) (rest : List StreamState) (s : StreamState)
    → a.pool ≡ release rest s
    → IsStuck s
    → (u32 (lives css a).ok ≡ u32 (a.ok + length css)) × ((lives css a).nook ≡ a.nook)
unfolding lives
lives_stuck [] a rest s e h = (omega arith, refl)
lives_stuck (cs ∷ css) a rest s e h =
    let begun : IsStuck (acquire a).0 =
      subst IsStuck (sym (reused a rest s e)) (reset-IsStuck s h) in
    let over = calls-IsStuck cs (acquire a).0 begun in
    let (ok, nook, pool) = life_stuck cs a over in
    let (total, same) =
      lives_stuck css (life cs a) (acquire a).1.pool (calls cs (acquire a).0) pool over in
    (omega (arith, total, ok), same ∙ nook)

-- Once a stream was told of a GOAWAY or of a request's error, it and all streams that follow one by
-- one are counted in `ok`, whatever they are told, and none in `nook`.
pub lives-told :
    (cs : List Call) (css : List (List Call)) (a : Reporter)
    → told cs ≡ true
    → (u32 (lives (cs ∷ css) a).ok ≡ u32 (a.ok + 1 + length css))
      × ((lives (cs ∷ css) a).nook ≡ a.nook)
unfolding lives
lives-told cs css a h =
    let over = told-IsStuck cs (acquire a).0 h in
    let (ok, nook, pool) = life_stuck cs a over in
    let (total, same) =
      lives_stuck css (life cs a) (acquire a).1.pool (calls cs (acquire a).0) pool over in
    (omega (arith, total, ok), same ∙ nook)
