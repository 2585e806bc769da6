-- ===== src/Reciever/Dispatch/Table.antt =====
-- The types of frames that the client refuses, and those on which it panics.
use framer.Base.{
  ℕ, suc, true, ◌≤◌, ◌≡◌, refl, sym, subst, ◌∙◌, if◌then◌else◌, leb, ◌⊎◌, inl, inr, Bytes, Bool,
  some, none, arith, get_elem?,
}
use framer.FrameHeader.{type_field}
use framer.Streams.Store.Interface.{StreamStore}
use framer.Reciever.Loop.{Result, Error, err, panic}
use framer.Reciever.World.{or_panic, ◌>>=◌}
use framer.Reciever.Headers.{Hpack}
use framer.Reciever.Dispatch.{Processors, subprocessors, process_by, dispatch}

past_table : (t : ℕ) → 10 ≤ t → get_elem? subprocessors t ≡ none
past_table (suc (suc (suc (suc (suc (suc (suc (suc (suc (suc t)))))))))) h = refl
past_table _ h = absurd (omega arith)

module _ {V : Type 0} (S : StreamStore V) (H : Hpack) (has : ℕ → ℕ → Bool) (p : Processors S H has)
    (header payload : Bytes) (incomplete : Bool) where
  -- The end of `dispatch`, at a type.
  abbrev call_at : ℕ → Result (Processors S H has) (Processors S H has)
  call_at t = or_panic (get_elem? subprocessors t) >>= λ sp. elim sp [
    | none ↦ err (Error.frame_type_not_supported t) p
    | some k ↦ process_by S H has k header payload incomplete p
  ]

  abbrev pub refusal : ℕ → Result (Processors S H has) (Processors S H has)
  refusal t = if leb 10 t then panic else err (Error.frame_type_not_supported t) p

  dispatch_at :
      (t : ℕ)
      → type_field header ≡ some t
      → dispatch S H has header payload incomplete p ≡ call_at t
  unfolding dispatch
  dispatch_at t typed = rw typed

  -- PRIORITY (2) and PUSH_PROMISE (5) end the loop with an error and change nothing; a type from 10
  -- on, such as one of an extension, is an index out of range, which panics.
  pub dispatch-refused :
      (t : ℕ)
      → type_field header ≡ some t
      → (t ≡ 2) ⊎ ((t ≡ 5) ⊎ (10 ≤ t))
      → dispatch S H has header payload incomplete p ≡ refusal t
  dispatch-refused t typed (inl e) =
      dispatch_at t typed ∙ subst (λ k. call_at k ≡ refusal k) (sym e) refl
  dispatch-refused t typed (inr (inl e)) =
      dispatch_at t typed ∙ subst (λ k. call_at k ≡ refusal k) (sym e) refl
  dispatch-refused t typed (inr (inr h)) =
      let e : leb 10 t ≡ true = ground arith in dispatch_at t typed ∙ rw (past_table t h, e)
