-- ===== src/Reciever/Processors/Farewell.antt =====
-- GOAWAY in pieces of any sizes.
use framer.Base.{
  ℕ, zero, suc, ◌+◌, ◌-◌, ◌≤◌, ◌≡◌, refl, sym, ◌∙◌, ap, ap₂, Bytes, List, [], ◌∷◌, ◌++◌, some, Bool,
  true, false, length, length-append, length-drop, take, drop, min, arith, AllBytes, append_assoc,
  take_same, take-append, drop_same, subst, drop-append, drop-drop,
}
use framer.Reciever.Loop.{Result, Error, ok, err}
use framer.Reciever.Processors.{
  GoAwayFrameProcessor, new_go_away, process_go_away, shift_all, take_number,
}
use framer.Reciever.Processors.BigEndian.{
  shift_all-append, shift_all_four, big_endian, run_pieces, payload_of,
}

take_number_lem :
    (n x : ℕ) (payload : Bytes)
    → n ≤ length payload
    → take_number n x payload ≡ some (shift_all x (take n payload), drop n payload)
unfolding take_number shift_all
take_number_lem zero x payload h = refl
take_number_lem (suc n) x [] h = absurd (omega arith)
take_number_lem (suc n) x (b ∷ payload) h = take_number_lem n _ payload (omega arith)

-- The fields as functions of the bytes of the payload so far.
record Got (p : GoAwayFrameProcessor) (got : Bytes) : Type 0 where
  index : p.index ≡ min 8 (length got)
  last : p.last_stream_id ≡ shift_all 0 (take 4 got)
  code : p.err_code ≡ shift_all 0 (take 4 (drop 4 got))
  debug : p.debug_data ≡ drop 8 got

-- The number of bytes that the two loops of one call take.
abbrev first : ℕ → ℕ → ℕ
first i l = min 4 (i + l) - i

abbrev second : ℕ → ℕ → ℕ
second i l = min 8 (i + l) - (i + first i l)

-- One piece: the fields after it, before the test of `incomplete`.
abbrev advanced : GoAwayFrameProcessor → Bytes → GoAwayFrameProcessor
advanced p payload =
    let n = first p.index (length payload) in
    let m = second p.index (length payload) in
    record {
      err_code = shift_all p.err_code (take m (drop n payload));
      last_stream_id = shift_all p.last_stream_id (take n payload);
      debug_data = p.debug_data ++ drop m (drop n payload);
      index = p.index + n + m;
    }

abbrev concluded : Bool → GoAwayFrameProcessor → Result GoAwayFrameProcessor GoAwayFrameProcessor
concluded true q = ok q
concluded false q = err (Error.go_away q.err_code q.last_stream_id q.debug_data) new_go_away

piece_taken :
    (p : GoAwayFrameProcessor) (payload : Bytes) (incomplete : Bool)
    → process_go_away p payload incomplete ≡ concluded incomplete (advanced p payload)
unfolding process_go_away
piece_taken p payload true =
    let n = first p.index (length payload) in
    let m = second p.index (length payload) in
    rw (
      take_number_lem n p.last_stream_id payload (omega arith),
      take_number_lem m p.err_code (drop n payload) (omega (arith, length-drop n payload)),
    )
piece_taken p payload false =
    let n = first p.index (length payload) in
    let m = second p.index (length payload) in
    rw (
      take_number_lem n p.last_stream_id payload (omega arith),
      take_number_lem m p.err_code (drop n payload) (omega (arith, length-drop n payload)),
    )

advanced-Got :
    (p : GoAwayFrameProcessor) (got payload : Bytes)
    → Got p got
    → Got (advanced p payload) (got ++ payload)
advanced-Got p got payload g =
    let l = length got in
    let k = length payload in
    let n = first p.index k in
    let m = second p.index k in
    let i : p.index ≡ min 8 l = g.index in
    record {
      index = omega (arith, length-append got payload);
      last =
          ap (λ x. shift_all x (take n payload)) g.last
          ∙ ap (shift_all (shift_all 0 (take 4 got))) (take_same n (4 - l) payload (omega arith))
          ∙ sym (shift_all-append 0 (take 4 got) (take (4 - l) payload))
          ∙ ap (shift_all 0) (sym (take-append 4 got payload));
      code =
          ap₂ shift_all g.code (
            ap (take m) (drop_same n (4 - l) payload (omega arith))
            ∙ take_same m (4 - length (drop 4 got)) (drop (4 - l) payload)
                (omega (arith, length-drop 4 got, length-drop (4 - l) payload)))
          ∙ sym (shift_all-append 0 (take 4 (drop 4 got)) _)
          ∙ ap (shift_all 0) (
              sym (take-append 4 (drop 4 got) (drop (4 - l) payload))
              ∙ ap (take 4) (sym (drop-append 4 got payload)));
      debug =
          ap₂ ◌++◌ g.debug
            (drop-drop m n (n + m) payload refl ∙ drop_same (n + m) (8 - l) payload (omega arith))
          ∙ sym (drop-append 8 got payload);
    }

-- What the fields say of a whole payload.
whole-Got :
    (p : GoAwayFrameProcessor) (a b c d e f g h : ℕ) (debug : Bytes)
    → AllBytes (a ∷ b ∷ c ∷ d ∷ [])
    → AllBytes (e ∷ f ∷ g ∷ h ∷ [])
    → Got p (a ∷ b ∷ c ∷ d ∷ e ∷ f ∷ g ∷ h ∷ debug)
    → concluded false p
      ≡ err (Error.go_away (big_endian e f g h) (big_endian a b c d) debug) new_go_away
whole-Got p a b c d e f g h debug va vb w =
    ap₂ (λ code (rest : ℕ × Bytes). err (Error.go_away code rest.0 rest.1) new_go_away)
      (w.code ∙ shift_all_four 0 e f g h vb)
      (ap₂ (λ x y. (x, y)) (w.last ∙ shift_all_four 0 a b c d va) w.debug)

go_away_from :
    (p : GoAwayFrameProcessor) (got : Bytes) (ps : List Bytes) (last : Bytes)
    → Got p got
    → (q : GoAwayFrameProcessor) × (run_pieces process_go_away p ps last ≡ concluded false q)
      × Got q (got ++ payload_of ps last)
go_away_from p got [] last g =
    (advanced p last, piece_taken p last false, advanced-Got p got last g)
go_away_from p got (b ∷ ps) last g =
    let (q, e, w) = go_away_from (advanced p b) (got ++ b) ps last (advanced-Got p got b g) in
    (q, rw (piece_taken p b true) e, rw (append_assoc got b (payload_of ps last)) at w)

new_go_away-Got : Got new_go_away []
unfolding shift_all
new_go_away-Got = record { index = refl; last = refl; code = refl; debug = refl }

-- However a GOAWAY payload of at least eight bytes is cut into pieces, the processor ends with the
-- error that names the last stream (the first four bytes), the code (the next four) and the debug
-- data (the rest), and its fields are as new.
pub go_away-pieces :
    (ps : List Bytes) (last : Bytes) (a b c d e f g h : ℕ) (debug : Bytes)
    → AllBytes (a ∷ b ∷ c ∷ d ∷ [])
    → AllBytes (e ∷ f ∷ g ∷ h ∷ [])
    → payload_of ps last ≡ a ∷ b ∷ c ∷ d ∷ e ∷ f ∷ g ∷ h ∷ debug
    → run_pieces process_go_away new_go_away ps last
      ≡ err (Error.go_away (big_endian e f g h) (big_endian a b c d) debug) new_go_away
go_away-pieces ps last a b c d e f g h debug va vb shape =
    let (q, r, w) = go_away_from new_go_away [] ps last new_go_away-Got in
    r ∙ whole-Got q a b c d e f g h debug va vb (subst (Got q) shape w)
