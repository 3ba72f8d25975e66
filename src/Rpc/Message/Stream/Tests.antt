-- ===== src/Rpc/Message/Stream/Tests.antt =====
-- A call that arrives in three chunks, with the start of another message behind it.
use go_study.Prelude.{[], ◌∷◌, ◌≡◌, refl, arith, none, some, take, drop, replicate, bytes}
use go_study.Rpc.Message.{Request, out_of_range}
use go_study.Rpc.Message.Encode.{layout, encode_req-layout, IsSized}
use go_study.Rpc.Message.Stream.{Conn, read_msg, no_data_length, unexpected_eof, recovered}
use go_study.Rpc.Message.Stream.Arriving.{IsRead, read_msg-encode_req}

abbrev ping : Request
ping = record {
  head_length = 18;
  body_length = 2;
  message_id = 7;
  version = 1;
  compressor = 0;
  serializer = 1;
  service_name = bytes "s";
  method_name = [];
  meta = none;
  payload = 8 ∷ 9 ∷ [];
}

ping-IsSized : IsSized ping
ping-IsSized = omega arith

abbrev chunks : Conn
chunks = take 10 (layout ping) ∷ drop 10 (layout ping) ∷ (5 ∷ 6 ∷ []) ∷ []

read_msg-encode_req_example : IsRead (read_msg chunks) (layout ping) (5 ∷ 6 ∷ [])
read_msg-encode_req_example =
    read_msg-encode_req ping (layout ping) (5 ∷ 6 ∷ []) (take 10 (layout ping))
      (drop 10 (layout ping) ∷ (5 ∷ 6 ∷ []) ∷ []) ping-IsSized (encode_req-layout ping ping-IsSized)
      (omega arith) refl

-- A first chunk that is too short is an error, although the rest is on its way.
short_chunk : read_msg ((1 ∷ 2 ∷ []) ∷ (3 ∷ []) ∷ []) ≡ ((3 ∷ []) ∷ [], ([], some no_data_length))
unfolding read_msg
short_chunk = refl

broken_off : (read_msg (take 12 (layout ping) ∷ [])).1.1 ≡ some unexpected_eof
unfolding read_msg
broken_off = refl

too_small : (read_msg (replicate 8 0 ∷ [])).1.1 ≡ some (recovered out_of_range)
unfolding read_msg
too_small = refl
