-- ===== src/Rpc/Message/Tests.antt =====
-- Runs of the codec of message.go, and its theorems at concrete messages.
use go_study.Prelude.{◌≡◌, refl, arith, [], ◌∷◌, some, ok, err, ◌>>=◌, index_byte, insert}
use go_study.Rpc.Message.{
  out_of_range, Request, Response, encode_req, decode_req, encode_resp, decode_resp,
  cal_head_length, set_head_length, read_u32, get_at, slice, cut, decode_rest,
}
use go_study.Rpc.Message.Encode.{layout, IsSized, encode_req-layout, cal_head_length-IsSized}
use go_study.Rpc.Message.RoundTrip.{IsCarried, decode_req-encode_req, decode_resp-encode_resp}
use go_study.Rpc.Message.Totality.{Ends, decode_req-Ends}

-- A call `u.Get` with one entry of metadata and two bytes of data; the head length is not set.
abbrev draft : Request
draft = record {
  head_length = 0;
  body_length = 2;
  message_id = 7;
  version = 1;
  compressor = 2;
  serializer = 3;
  service_name = b'u' ∷ [];
  method_name = b'G' ∷ b'e' ∷ b't' ∷ [];
  meta = some ((b'k' ∷ [], b'v' ∷ b'w' ∷ []) ∷ []);
  payload = 10 ∷ 13 ∷ [];
}

abbrev call : Request
call = record draft { head_length = 26 }

abbrev answer : Response
answer = record {
  head_length = 17;
  body_length = 1;
  message_id = 7;
  version = 1;
  compressor = 2;
  serializer = 3;
  error = 10 ∷ 0 ∷ [];
  payload = 255 ∷ [];
}

cal_head_length_runs : cal_head_length draft ≡ call
unfolding cal_head_length
cal_head_length_runs = refl

set_head_length_runs : set_head_length (record answer { head_length = 0 }) ≡ answer
unfolding set_head_length
set_head_length_runs = refl

encode_req_runs : encode_req call ≡ ok (layout call)
unfolding encode_req
encode_req_runs = refl

decode_req_runs : decode_req (layout call) ≡ ok call
unfolding decode_req read_u32 get_at slice cut decode_rest index_byte insert
decode_req_runs = refl

-- Without the head length the buffer is too short, and the encoder panics.
encode_req_unsized : encode_req draft ≡ err out_of_range
unfolding encode_req
encode_req_unsized = refl

encode_req-layout_example : encode_req call ≡ ok (layout call)
encode_req-layout_example = encode_req-layout call (omega arith)

cal_head_length-IsSized_example : IsSized (cal_head_length draft)
cal_head_length-IsSized_example = cal_head_length-IsSized draft (omega arith) refl

call-IsCarried : IsCarried call
call-IsCarried = omega arith

decode_req-encode_req_example : (encode_req call >>= decode_req) ≡ ok call
decode_req-encode_req_example = decode_req-encode_req call call-IsCarried

decode_resp-encode_resp_example : (encode_resp answer >>= decode_resp) ≡ ok answer
decode_resp-encode_resp_example = decode_resp-encode_resp answer (omega arith) (omega arith)

decode_req-Ends_example : Ends (decode_req (1 ∷ 2 ∷ []))
decode_req-Ends_example = decode_req-Ends (1 ∷ 2 ∷ [])
