-- ===== src/Rpc/Client/Tests.antt =====
-- A client and a server of rpc/homework1 at the two ends of a connection.
use go_study.Prelude.{
  ℕ, ◌+◌, ◌-◌, ◌%◌, ◌≡◌, refl, Option, none, some, List, [], ◌∷◌, Result, ok, err, replicate, Bytes,
  bytes, beq, lookup, insert, arith, append-nil, ap,
}
use go_study.Rpc.Message.Stream.{Conn}
use go_study.Rpc.Message.Encode.{layout}
use go_study.Rpc.Server.Conn.{handle_conn}
use go_study.Rpc.Server.Ends.{handle_conn-ends}
use go_study.Rpc.Server.{
  Serializer, uncompressed, Error, foreign, Stop, Ctx, Method, Server, register, new_server,
}
use go_study.Rpc.Message.{cal_head_length}
use go_study.Rpc.Client.{Client, Target, call, new_request}
use go_study.Rpc.Client.EndToEnd.{IsSplit, server_calls, server_transport}
use go_study.Rpc.Client.Served.{live_ctx, IsTimeFormat, Offers, IsLossless}
use go_study.Rpc.Client.Returns.{call-served, call-failed}

-- The values are strings, which stand for themselves; an error is a string too.
abbrev plain : Serializer Bytes (Unit {0}) Bytes
plain = record { code = 1; encode = λ v. ok v; decode = λ t bs. ok bs }

abbrev text : Error Bytes → Bytes
text (foreign e) = e
text _ = bytes "error"

-- A point in time is sent as one digit.
abbrev format_time : ℕ → Bytes
format_time d = (48 + d % 10) ∷ []

abbrev parse_time : Bytes → Result Bytes ℕ
parse_time [] = err []
parse_time (b ∷ bs) = ok (b - 48)

times : IsTimeFormat {E = Bytes} format_time parse_time (λ d. d % 10)
times = record { parses = λ d. ap ok (omega arith); clean = λ d. ((λ e. omega arith), tt) }

abbrev one_chunk : Bytes → Conn
one_chunk bs = bs ∷ []

one_chunk-IsSplit : IsSplit one_chunk
one_chunk-IsSplit = record {
  first = λ bs. bs;
  others = λ bs. [];
  parts = λ bs. refl;
  whole = λ bs. append-nil bs;
  enough = λ bs h. h;
}

-- `GetById` counts its calls, and puts a mark before its argument; without an argument it fails.
abbrev get_by_id : Method Bytes (Unit {0}) Bytes ℕ (ℕ × List Bytes)
get_by_id = record { in_type = tt; run = ran }
  where
    ran : Ctx ℕ → Bytes → ℕ × List Bytes → (ℕ × List Bytes) × (Bytes × Option Bytes)
    ran ctx [] (w, out) = ((w + 1, out), ([], some (bytes "no id")))
    ran ctx (b ∷ v) (w, out) = ((w + 1, out), (b'!' ∷ b ∷ v, none))

abbrev target : Target (Unit {0})
target = record {
  service_name = bytes "user-service";
  method_name = bytes "GetById";
  out_type = tt;
}

abbrev server : Server Bytes (Unit {0}) Bytes ℕ (ℕ × List Bytes)
server = record {
  services = (bytes "user-service", (bytes "GetById", get_by_id) ∷ []) ∷ [];
  serializers = none ∷ some plain ∷ replicate 30 none;
  compressors = some uncompressed ∷ replicate 31 none;
}

abbrev client : Client Bytes (Unit {0}) Bytes
client = record { serializer = plain; compressor = uncompressed }

server_made :
    elim (new_server {N = ℕ} {W = ℕ × List Bytes} plain) [
      | none ↦ none
      | some srv ↦ some (register (bytes "user-service") ((bytes "GetById", get_by_id) ∷ []) srv)
    ]
    ≡ some server
unfolding new_server register insert
server_made = refl

offers : Offers server client target get_by_id
unfolding lookup beq
offers = record {
  methods = (bytes "GetById", get_by_id) ∷ [];
  service = refl;
  method = refl;
  serializer = refl;
  compressor = refl;
  service_name = ground arith;
  method_name = ground arith;
}

lossless : (v : Bytes) → IsLossless client tt v v
lossless v = record {
  plain = v;
  encodes = refl;
  compresses = refl;
  decompresses = refl;
  decodes = refl;
}

-- Message 7, with the deadline 25: the server sees the deadline 5.
call-served_example :
    let ran =
      call client format_time
        (server_transport text parse_time one_chunk server)
        target
        (live_ctx (some 25))
        (b'x' ∷ [])
        6
        (0, none) in
    (ran.1.1 ≡ ok (b'!' ∷ b'x' ∷ [])) × (ran.1.0.0 ≡ 1)
unfolding new_request cal_head_length
call-served_example =
    call-served text parse_time format_time (λ d. d % 10) times one_chunk one_chunk-IsSplit server
      client target get_by_id offers (some 25) (b'x' ∷ []) (b'!' ∷ b'x' ∷ []) (b'x' ∷ [])
      (b'!' ∷ b'x' ∷ []) 6 0 1 none (lossless (b'x' ∷ [])) refl (lossless (b'!' ∷ b'x' ∷ []))
      (omega arith) (omega arith)

-- Without an argument the service fails, and the client's function returns no error.
call-failed_example :
    (call client format_time
      (server_transport text parse_time one_chunk server)
      target
      (live_ctx none)
      []
      6
      (0, none)).1.1
    ≡ ok []
unfolding new_request cal_head_length
call-failed_example =
    call-failed text parse_time format_time (λ d. d % 10) times one_chunk one_chunk-IsSplit server
      client target get_by_id offers none [] [] (bytes "no id") [] 6 0 1 none (lossless []) refl
      (omega arith) (omega arith)

abbrev message : Bytes
message = layout (new_request client format_time target (live_ctx (some 25)) 7 (b'x' ∷ []))

-- A request, and then the end of the connection.
handle_conn-ends_example :
    (s : Stop Bytes) × ((handle_conn
        (server_calls text parse_time)
        100
        server
        (one_chunk message)
        (0, [])).1
      ≡ some s)
unfolding new_request cal_head_length
handle_conn-ends_example =
    handle_conn-ends (server_calls text parse_time) server 100 (one_chunk message) (0, [])
      (omega arith)
