-- ===== src/Report/Simple/Counts.antt =====
-- The counters of the simple report, while any number of streams are open.
use framer.Base.{
  ℕ, zero, suc, ◌+◌, ◌≡◌, refl, ap, List, [], ◌∷◌, ◌++◌, none, some, length, length-append,
  length-set, get_elem?, set, u32, arith, inl, inr, Bool-cases, Option-cases,
}
use framer.Report.Simple.{
  StreamState, Call, Reporter, new_reporter, on_call, on_reporter, acquire, accept, result,
}
use framer.Utils.SlicePool as SlicePool

-- What happens: a stream is opened, the i-th of the open streams is called or ends.
pub data Event : Type 0 where
  opened : Event
  called : ℕ → Call → Event
  ended : ℕ → Event

-- The reporter, and the states of the streams that are open.
pub record System : Type 0 where
  pub reporter : Reporter
  pub open_streams : List StreamState

abbrev pub remove : List StreamState → ℕ → List StreamState
remove [] i = []
remove (x ∷ xs) zero = xs
remove (x ∷ xs) (suc i) = x ∷ remove xs i

pub step : Event → System → System
step Event.opened y = record {
  reporter = (acquire y.reporter).1;
  open_streams = y.open_streams ++ (acquire y.reporter).0 ∷ [];
}
step (Event.called i c) y = elim (get_elem? y.open_streams i) [
  | none ↦ y
  | some s ↦ record {
    reporter = on_reporter c y.reporter;
    open_streams = set y.open_streams i (on_call c s);
  }
]
step (Event.ended i) y = elim (get_elem? y.open_streams i) [
  | none ↦ y
  | some s ↦ record { reporter = accept s y.reporter; open_streams = remove y.open_streams i }
]

pub steps : List Event → System → System
steps [] y = y
steps (e ∷ es) y = steps es (step e y)

abbrev pub new_system : System
new_system = record { reporter = new_reporter; open_streams = [] }

length-remove :
    (xs : List StreamState) (i : ℕ) (s : StreamState)
    → get_elem? xs i ≡ some s
    → suc (length (remove xs i)) ≡ length xs
length-remove [] i s e = cc
length-remove (x ∷ xs) zero s e = refl
length-remove (x ∷ xs) (suc i) s e = ap suc (length-remove xs i s e)

-- Each stream that was opened is counted in `ok`, counted in `nook`, or open.
pub Counted : System → Type 0
Counted y = u32 (y.reporter.ok + y.reporter.nook + length y.open_streams) ≡ y.reporter.req

-- A call of the reporter, and what it leaves.
pub acquire-counters :
    (a : Reporter)
    → ((acquire a).1.ok ≡ a.ok)
      × ((acquire a).1.nook ≡ a.nook)
      × ((acquire a).1.req ≡ u32 (a.req + 1))
unfolding acquire
acquire-counters a = elim (Option-cases (SlicePool.acquire a.pool)) [
  | inl e ↦ rw (e, acquire) (refl, refl, refl)
  | inr (p, e) ↦ rw (e, acquire) (refl, refl, refl)
]

accept-counters :
    (s : StreamState) (a : Reporter)
    → (u32 ((accept s a).ok + (accept s a).nook) ≡ u32 (a.ok + a.nook + 1))
      × ((accept s a).req ≡ a.req)
unfolding accept
accept-counters s a = elim (Bool-cases (result s)) [
  | inl e ↦ rw e (omega arith, refl)
  | inr e ↦ rw e (omega arith, refl)
]

-- A call of the reporter, and what it leaves.
pub on_reporter-counters :
    (c : Call) (a : Reporter)
    → ((on_reporter c a).ok ≡ a.ok)
      × ((on_reporter c a).nook ≡ a.nook)
      × ((on_reporter c a).req ≡ a.req)
      × ((on_reporter c a).pool ≡ a.pool)
unfolding on_reporter
on_reporter-counters Call.first_byte_sent a = (refl, refl, refl, refl)
on_reporter-counters Call.last_byte_sent a = (refl, refl, refl, refl)
on_reporter-counters Call.request_error a = (refl, refl, refl, refl)
on_reporter-counters Call.io_error a = (refl, refl, refl, refl)
on_reporter-counters Call.go_away a = (refl, refl, refl, refl)
on_reporter-counters Call.timeout a = (refl, refl, refl, refl)
on_reporter-counters (Call.set_size n) a = (refl, refl, refl, refl)
on_reporter-counters (Call.rst_stream n) a = (refl, refl, refl, refl)
on_reporter-counters (Call.on_header n v) a = (refl, refl, refl, refl)

step-Counted : (e : Event) (y : System) → Counted y → Counted (step e y)
unfolding Counted step
step-Counted Event.opened y h =
    let (p, q, r) = acquire-counters y.reporter in
    omega (arith, p, q, r, h, length-append y.open_streams ((acquire y.reporter).0 ∷ []))
step-Counted (Event.called i c) y h = elim (Option-cases (get_elem? y.open_streams i)) [
  | inl e ↦ rw (e, step) h
  | inr (s, e) ↦
      let (p, q, r, k) = on_reporter-counters c y.reporter in
      rw (e, step) (omega (arith, p, q, r, h, length-set y.open_streams i (on_call c s)))
]
step-Counted (Event.ended i) y h = elim (Option-cases (get_elem? y.open_streams i)) [
  | inl e ↦ rw (e, step) h
  | inr (s, e) ↦
      let (p, q) = accept-counters s y.reporter in
      rw (e, step) (omega (arith, p, q, h, length-remove y.open_streams i s e))
]

steps-Counted : (es : List Event) (y : System) → Counted y → Counted (steps es y)
unfolding steps
steps-Counted [] y h = h
steps-Counted (e ∷ es) y h = steps-Counted es (step e y) (step-Counted e y h)

-- Whatever streams are opened, called and ended, in any order: the streams that `ok` and `nook`
-- count and those that are open are together, on 32 bits, those that `req` counts.
pub steps-counters :
    (es : List Event)
    → let y = steps es new_system in
      u32 (y.reporter.ok + y.reporter.nook + length y.open_streams) ≡ y.reporter.req
unfolding Counted
steps-counters es = steps-Counted es new_system refl
