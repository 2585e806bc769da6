-- ===== src/Sender/Batched/Bounds.antt =====
-- The size of a write of `batchedProcessor`.
use framer.Base.{
  ◌+◌, ◌≤◌, ◌≡◌, Bytes, List, [], ◌∷◌, ◌++◌, Bool, true, false, ltb, length, length-append,
  Bool-cases, inl, inr, arith, All, All-append,
}
use framer.Sender.Batched.{
  Frame, WriteCmd, Event, Phase, Batcher, new_batcher, nonempty, write_out, do_write, add_frame,
  batching_round, draining_round, round_in, batched_processor,
}

abbrev pub IsSmall : WriteCmd → Type 0
IsSmall w = length w.bufs ≤ 2048

-- A frame of `types.Frame` has three chunks at most.
abbrev pub HasThree : Event → Type 0
HasThree (Event.frame f) = length f.chunks ≤ 3
HasThree _ = Unit

pub record IsBounded (b : Batcher) : Type 0 where
  pub waiting : 1 + length b.rest ≤ 2048
  pub sent : All IsSmall b.written

write_out-IsBounded :
    (bufs : List Bytes) (b : Batcher)
    → length bufs ≤ 2048
    → IsBounded b
    → IsBounded (write_out bufs b)
write_out-IsBounded bufs b h v = record {
  waiting = omega arith;
  sent = All-append IsSmall b.written _ v.sent (h, tt);
}

do_write-IsBounded : (w : Bool) (b : Batcher) → IsBounded b → IsBounded (do_write w b)
unfolding do_write
do_write-IsBounded true b v = write_out-IsBounded (b.first ∷ b.rest) b (omega (arith, v.waiting)) v
do_write-IsBounded false b v = elim (Bool-cases (nonempty b.rest)) [
  | inl e ↦ rw e (write_out-IsBounded b.rest b (omega (arith, v.waiting)) v)
  | inr e ↦ rw e v
]

abbrev behind : Frame → Batcher → Batcher
behind f b = record b { rest = b.rest ++ f.chunks; cbs = b.cbs ++ f.cbs }

do_write_rest : (b : Batcher) → (do_write false b).rest ≡ []
unfolding do_write
do_write_rest b = ground arith

add_frame-IsBounded :
    (f : Frame) (b : Batcher) → length f.chunks ≤ 3 → IsBounded b → IsBounded (add_frame f b)
unfolding add_frame
add_frame-IsBounded f b h v = elim (Bool-cases (ltb 2048 (3 + (1 + length b.rest)))) [
  | inl full ↦
      let w = do_write-IsBounded false b v in
      rw full (record { waiting = rw (do_write_rest b) (omega arith); sent = w.sent })
  | inr room ↦
      let small : 4 + length b.rest ≤ 2048 = ground arith in
      rw room (record { waiting = omega (arith, length-append b.rest f.chunks); sent = v.sent })
]

round_in-IsBounded :
    (p : Phase) (e : Event) (b : Batcher) → HasThree e → IsBounded b → IsBounded (round_in p e b)
unfolding round_in batching_round draining_round
round_in-IsBounded Phase.batching (Event.priority c) b h v =
    do_write-IsBounded true (record b { first = c }) (record { waiting = v.waiting; sent = v.sent })
round_in-IsBounded Phase.batching (Event.frame f) b h v = add_frame-IsBounded f b h v
round_in-IsBounded Phase.batching Event.flush b h v =
    let w = do_write-IsBounded false b v in record { waiting = w.waiting; sent = w.sent }
round_in-IsBounded Phase.batching Event.tick b h v = do_write-IsBounded false b v
round_in-IsBounded Phase.batching Event.cancel b h v =
    let w = do_write-IsBounded false b v in record { waiting = w.waiting; sent = w.sent }
round_in-IsBounded Phase.draining (Event.priority c) b h v =
    do_write-IsBounded true (record b { first = c }) (record { waiting = v.waiting; sent = v.sent })
round_in-IsBounded Phase.draining (Event.frame f) b h v = v
round_in-IsBounded Phase.draining Event.flush b h v = v
round_in-IsBounded Phase.draining Event.tick b h v = v
round_in-IsBounded Phase.draining Event.cancel b h v = record { waiting = v.waiting; sent = v.sent }
round_in-IsBounded Phase.stopped (Event.priority c) b h v = v
round_in-IsBounded Phase.stopped (Event.frame f) b h v = v
round_in-IsBounded Phase.stopped Event.flush b h v = v
round_in-IsBounded Phase.stopped Event.tick b h v = v
round_in-IsBounded Phase.stopped Event.cancel b h v = v

keeps-IsBounded :
    (es : List Event) (b : Batcher)
    → All HasThree es
    → IsBounded b
    → IsBounded (batched_processor es b)
unfolding batched_processor
keeps-IsBounded [] b h v = v
keeps-IsBounded (e ∷ es) b h v =
    keeps-IsBounded es (round_in b.phase e b) h.1 (round_in-IsBounded b.phase e b h.0 v)

-- If no frame has more than three chunks, no write has more than 2048 buffers, and fewer than that
-- wait.
pub batched_processor-IsBounded :
    (es : List Event) → All HasThree es → IsBounded (batched_processor es new_batcher)
batched_processor-IsBounded es h =
    keeps-IsBounded es new_batcher h (record { waiting = omega arith; sent = tt })
