-- ===== src/Streams/Limiter/Schedules.antt =====
-- The limiter under any interleaving of goroutines: nothing is handed out twice, and no goroutine
-- sleeps while a slot is free and nobody is about to take it.
use framer.Base.{ℕ, suc, ◌+◌, ◌≤◌, ◌<◌, ◌≡◌, ◌⊎◌, inl, refl, none, some, u32_mod, arith}
use framer.Streams.Limiter.{Limiter, wait_allow, release}

-- The limiter, with what a schedule is about: the goroutines that are about to run a pass of
-- `WaitAllow` (new ones, and ones that were woken), those asleep in `cond.Wait`, the signals that are
-- still to be sent, and how many streams were allowed and released so far.
pub record State : Type 0 where
  pub limiter : Limiter
  pub ready : ℕ
  pub asleep : ℕ
  pub signals : ℕ
  pub allowed : ℕ
  pub released : ℕ

abbrev pub start : ℕ → State
start quota = record {
  limiter = record { quota = quota };
  ready = 0;
  asleep = 0;
  signals = 0;
  allowed = 0;
  released = 0;
}

-- One step of some goroutine.
pub data Step : State → State → Type 0 where
  -- a goroutine calls `WaitAllow`
  arrive : (s : State) → Step s (record s { ready = s.ready + 1 })
  -- a pass finds no quota
  sleep :
      (s : State) (r : ℕ)
      → s.ready ≡ suc r
      → wait_allow s.limiter ≡ none
      → Step s (record s { ready = r; asleep = s.asleep + 1 })
  -- a pass takes a slot
  allow :
      (s : State) (r : ℕ) (l : Limiter)
      → s.ready ≡ suc r
      → wait_allow s.limiter ≡ some l
      → Step s (record s { limiter = l; ready = r; allowed = s.allowed + 1 })
  -- `Release` up to its unlock
  give :
      (s : State)
      → Step s (record s {
        limiter = release s.limiter;
        signals = s.signals + 1;
        released = s.released + 1;
      })
  -- its `Signal` wakes one sleeper, if there is one
  wake :
      (s : State) (n a : ℕ)
      → s.signals ≡ suc n
      → s.asleep ≡ suc a
      → Step s (record s { signals = n; asleep = a; ready = s.ready + 1 })
  miss : (s : State) (n : ℕ) → s.signals ≡ suc n → s.asleep ≡ 0 → Step s (record s { signals = n })

pub data Reach (quota : ℕ) : State → Type 0 where
  here : Reach quota (start quota)
  later : {s t : State} → Reach quota s → Step s t → Reach quota t

-- What holds in every reachable state of fewer than 2^32 releases and slots.
pub record IsFair (quota : ℕ) (s : State) : Type 0 where
  pub conserved : s.limiter.quota + s.allowed ≡ quota + s.released
  pub awake : (s.asleep ≡ 0) ⊎ (s.limiter.quota ≤ s.ready + s.signals)

Step-IsFair :
    {quota : ℕ} {s t : State}
    → Step s t
    → quota + t.released < u32_mod
    → IsFair quota s
    → IsFair quota t
unfolding wait_allow release
Step-IsFair (arrive s) b f = ground arith
Step-IsFair (sleep s r p e) b f = ground arith
Step-IsFair (allow s r l p e) b f = ground arith
Step-IsFair (give s) b f = ground arith
Step-IsFair (wake s n a p q) b f = ground arith
Step-IsFair (miss s n p q) b f = ground arith

released_grows : {s t : State} → Step s t → s.released ≤ t.released
released_grows (arrive s) = omega arith
released_grows (sleep s r p e) = omega arith
released_grows (allow s r l p e) = omega arith
released_grows (give s) = omega arith
released_grows (wake s n a p q) = omega arith
released_grows (miss s n p q) = omega arith

-- In every state that goroutines can reach from a new limiter, in any order of their steps and with
-- fewer than 2^32 slots and releases: the free slots and the streams allowed are together the quota
-- and the streams released, and while a goroutine sleeps, each free slot has a goroutine about to
-- test for it or a signal on its way.
pub Reach-IsFair :
    {quota : ℕ} {s : State} → Reach quota s → quota + s.released < u32_mod → IsFair quota s
Reach-IsFair here b = record { conserved = omega arith; awake = inl refl }
Reach-IsFair (later r st) b = Step-IsFair st b (Reach-IsFair r (omega (arith, released_grows st)))
