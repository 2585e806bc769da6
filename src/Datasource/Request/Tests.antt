-- ===== src/Datasource/Request/Tests.antt =====
-- Requests under a limit of eight bytes for a frame, with an encoder that writes a field's bytes as
-- they are.
use framer.Base.{
  ℕ, ◌+◌, ◌*◌, ◌<◌, ◌≤◌, ◌≡◌, refl, Bytes, List, [], ◌∷◌, ◌++◌, some, false, length, concat,
  replicate, arith, All, codes,
}
use framer.Http2.{frame_headers, flag_end_stream}
use framer.Datasource.Middleware.{
  Field, DefaultMiddleware, noop_middleware, default_middleware, new_default_middleware,
  as_middleware,
}
use framer.Datasource.Middleware.Fields.{IsPseudo, IsRegular}
use framer.Datasource.Request.{
  Frame, Request, HpackEncoder, header_fields, header_list_size, write_fields, payload_prefix,
  set_up_payload, set_up,
}
use framer.Datasource.Request.Headers.{Block, after, empty}
use framer.Datasource.Request.Payload.{IsData, Tail}
use framer.Datasource.Request.Message.{payload-long}
use framer.Datasource.Request.Whole.{Unended, header_fields-sorted, payload-Unended, set_up-fits}

abbrev zeros : ℕ → Bytes
zeros k = replicate 9 0

abbrev plain : HpackEncoder
plain = record { Encoder = Unit {0}; write_field = λ e f. (e, f.0 ++ f.1) }

abbrev small_request : Request
small_request = record {
  tag = codes "t";
  method = codes "/a";
  metadata = (codes "te", codes "x") ∷ (codes ":k", codes "y") ∷ (codes "k", codes "v") ∷ [];
  message = 1 ∷ 2 ∷ 3 ∷ [];
}

abbrev with_user : DefaultMiddleware
with_user = record default_middleware {
  static_pseudo = default_middleware.static_pseudo ++ (codes ":authority", codes "h") ∷ [];
}

with_user-made :
    new_default_middleware noop_middleware (codes ":authority" ∷ codes "h" ∷ []) ≡ some with_user
unfolding new_default_middleware
with_user-made = refl

header_fields-sorted_example :
    (ps rs : List Field) × (header_fields (as_middleware with_user) small_request
      ≡ (codes ":path", codes "/a") ∷ (ps ++ rs))
    × All IsPseudo ps
    × All IsRegular rs
header_fields-sorted_example =
    header_fields-sorted noop_middleware (codes ":authority" ∷ codes "h" ∷ []) with_user
      small_request with_user-made

payload-long_example :
    (b : Bytes) × (f : Frame) × (bs : List Bytes) × (fs : List Frame) × (set_up_payload zeros 8 3
        (1 ∷ 2 ∷ 3 ∷ 4 ∷ [])
        empty
      ≡ some (after empty (f ∷ fs) 9))
    × (b ++ concat bs ≡ 1 ∷ 2 ∷ 3 ∷ 4 ∷ [])
    × (length b ≡ 3)
    × IsData 8 0 3 (payload_prefix 4) b f
    × Tail 8 3 (payload_prefix 4) bs fs
payload-long_example =
    payload-long zeros 8 3 (λ k. refl) (omega arith) (omega arith) (omega arith)
      (1 ∷ 2 ∷ 3 ∷ 4 ∷ []) empty (omega arith)

payload-Unended_example :
    (fs : List Frame) × (set_up_payload zeros 8 3 (replicate 11 7) empty ≡ some (after empty fs 16))
    × (1 < length fs)
    × All Unended fs
payload-Unended_example =
    payload-Unended zeros 8 3 (λ k. refl) (omega arith) (omega arith) (omega arith) (replicate 11 7)
      empty 0 refl

set_up-fits_example :
    let w = write_fields plain tt (header_fields noop_middleware small_request) [] in
    (bs : List Bytes) × (fs : List Frame) × (f : Frame) × (set_up plain zeros noop_middleware 8 100
        3 tt small_request
      ≡ some (
        w.0,
        false,
        record {
          frames = fs ++ f ∷ [];
          size = 9 * length (fs ++ f ∷ []) + length w.1 + 8;
          handed_out = length (fs ++ f ∷ []);
        },
      ))
    × (concat bs ≡ w.1)
    × Block 8 3 frame_headers bs fs
    × IsData 8 flag_end_stream 3 (payload_prefix 3) (1 ∷ 2 ∷ 3 ∷ []) f
set_up-fits_example =
    set_up-fits zeros 8 3 (λ k. refl) (omega arith) (omega arith) (omega arith) plain
      noop_middleware 100 tt small_request list_small (omega arith)
  where
    list_small : header_list_size noop_middleware small_request ≤ 100
    list_small = unfold header_list_size in omega arith
