-- ===== src/Streams/FlowControl/Schedules.antt =====
-- A window under any interleaving of goroutines that wait, add and disable.
use framer.Base.{
  ℕ, ◌+◌, ◌≤◌, ◌<◌, ◌≡◌, ◌⊎◌, inl, inr, refl, List, [], ◌∷◌, none, some, true, false, u32_mod,
  arith, All, ap, ◌∙◌,
}
use framer.Streams.FlowControl.{FlowControl, new_flow_control, wait, add, disable}

-- The window, with what a schedule is about: the demands of the goroutines asleep in `cond.Wait`, and
-- the bytes that were granted (by a `Wait` that returned true) and added so far. A goroutine that is
-- about to run a pass, new or woken, is not recorded: any demand may come at any time.
pub record State : Type 0 where
  pub window : FlowControl
  pub asleep : List ℕ
  pub granted : ℕ
  pub added : ℕ

abbrev pub start : ℕ → State
start n = record { window = new_flow_control n; asleep = []; granted = 0; added = 0 }

-- One step of some goroutine.
pub data Step : State → State → Type 0 where
  -- a pass of `Wait` that does not pass its test
  sleep : (s : State) (n : ℕ) → wait s.window n ≡ none → Step s (record s { asleep = n ∷ s.asleep })
  -- a pass that ends `Wait` with true, or with false
  grant :
      (s : State) (n : ℕ) (w : FlowControl)
      → wait s.window n ≡ some (true, w)
      → Step s (record s { window = w; granted = s.granted + n })
  deny :
      (s : State) (n : ℕ) (w : FlowControl)
      → wait s.window n ≡ some (false, w)
      → Step s (record s { window = w })
  -- `Add` and `Disable`, whose broadcast leaves nobody asleep
  credit :
      (s : State) (n : ℕ)
      → Step s (record s { window = add s.window n; asleep = []; added = s.added + n })
  stop : (s : State) → Step s (record s { window = disable s.window; asleep = [] })

pub data Reach (n : ℕ) : State → Type 0 where
  here : Reach n (start n)
  later : {s t : State} → Reach n s → Step s t → Reach n t

-- A goroutine that has to wait.
abbrev pub Blocked : FlowControl → ℕ → Type 0
Blocked w n = (w.n < n) × (w.ok ≡ true)

pub record IsSound (n : ℕ) (s : State) : Type 0 where
  -- while the window is in use, what was granted and what is left are what there was and was added
  pub conserved : ((s.window).ok ≡ false) ⊎ (s.granted + (s.window).n ≡ n + s.added)
  pub bounded : s.granted ≤ n + s.added
  pub blocked : All (Blocked s.window) s.asleep

Blocked-less :
    (v w : FlowControl) (ns : List ℕ)
    → w.n ≤ v.n
    → w.ok ≡ v.ok
    → All (Blocked v) ns
    → All (Blocked w) ns
Blocked-less v w [] h e b = tt
Blocked-less v w (n ∷ ns) h e b =
    ((omega (arith, (b.0).0), cc (b.0).1), Blocked-less v w ns h e b.1)

-- A disabled window has nobody asleep.
Blocked-none :
    (v w : FlowControl) (ns : List ℕ) → v.ok ≡ false → All (Blocked v) ns → All (Blocked w) ns
Blocked-none v w [] e b = tt
Blocked-none v w (n ∷ ns) e b = cc (b.0).1

wait_granted :
    (v w : FlowControl) (n : ℕ)
    → v.n < u32_mod
    → wait v n ≡ some (true, w)
    → (w.ok ≡ v.ok) × (w.n + n ≡ v.n)
unfolding wait
wait_granted v w n h e = ground arith

-- A disabled window grants nothing but nothing.
wait_off :
    (v w : FlowControl) (n : ℕ) → v.ok ≡ false → wait v n ≡ some (true, w) → (n ≡ 0) × (w ≡ v)
unfolding wait
wait_off v w n h e = ground arith

wait_denied :
    (v w : FlowControl) (n : ℕ) → wait v n ≡ some (false, w) → (v.ok ≡ false) × (w.ok ≡ false)
unfolding wait
wait_denied v w n e = ground arith

Step-IsSound : {n : ℕ} {s t : State} → Step s t → n + t.added < u32_mod → IsSound n s → IsSound n t
unfolding wait add disable
Step-IsSound (sleep s n e) b f = record {
  conserved = f.conserved;
  bounded = f.bounded;
  blocked = (ground arith, f.blocked);
}
Step-IsSound {n = m} (grant s n w e) b f = elim (f.conserved) [
  | inl off ↦
      let (nothing, same) = wait_off s.window w n off e in
      record {
        conserved = inl (ap (λ v. v.ok) same ∙ off);
        bounded = omega (arith, f.bounded);
        blocked =
            Blocked-less s.window w s.asleep (omega (arith, ap (λ v. v.n) same))
              (ap (λ v. v.ok) same) f.blocked;
      }
  | inr sum ↦
      let (on, less) = wait_granted s.window w n (omega arith) e in
      record {
        conserved = inr (omega arith);
        bounded = omega arith;
        blocked = Blocked-less s.window w s.asleep (omega arith) on f.blocked;
      }
]
Step-IsSound (deny s n w e) b f =
    let (off, off') = wait_denied s.window w n e in
    record {
      conserved = inl off';
      bounded = f.bounded;
      blocked = Blocked-none s.window w s.asleep off f.blocked;
    }
Step-IsSound (credit s n) b f = record {
  conserved = ground (arith, f.conserved);
  bounded = omega (arith, f.bounded);
  blocked = tt;
}
Step-IsSound (stop s) b f = record { conserved = inl refl; bounded = f.bounded; blocked = tt }

added_grows : {s t : State} → Step s t → s.added ≤ t.added
added_grows (sleep s n e) = omega arith
added_grows (grant s n w e) = omega arith
added_grows (deny s n w e) = omega arith
added_grows (credit s n) = omega arith
added_grows (stop s) = omega arith

-- In every state that goroutines can reach from a new window, in any order of their steps, while the
-- window and what is added stay below 2^32: no more was granted than there was and was added, with
-- equality for what is left while the window is not disabled; and every goroutine that sleeps asks
-- for more than the window holds, and sleeps only while the window is not disabled.
pub Reach-IsSound : {n : ℕ} {s : State} → Reach n s → n + s.added < u32_mod → IsSound n s
Reach-IsSound here b = record { conserved = inr (omega arith); bounded = omega arith; blocked = tt }
Reach-IsSound (later r st) b = Step-IsSound st b (Reach-IsSound r (omega (arith, added_grows st)))
