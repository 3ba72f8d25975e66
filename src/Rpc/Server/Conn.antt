-- ===== src/Rpc/Server/Conn.antt =====
-- rpc/homework1/server.go: the loop over the messages of a connection.
use go_study.Prelude.{
  ℕ, zero, suc, ◌%◌, Bool, true, false, Option, none, some, List, [], ◌∷◌, if◌then◌else◌, Result,
  ok, err, length, get_elem?, Bytes, bytes, beq, lookup, insert,
}
use go_study.Rpc.Message.{
  u32_mod, Request, Response, entries, set_head_length, encode_resp, decode_req,
}
use go_study.Rpc.Message.Stream.{Conn, read_msg}
use go_study.Rpc.Server.{
  Error, service_not_found, foreign, read_error, Stop, failed, panicked, blocked, Ctx, Method,
  Server, Compressor, invoke,
}

-- What the code calls: the text of an error, the reading of a deadline, and conn.Write.
pub record Calls (E N W : Type 0) : Type 0 where
  pub text : Error E → Bytes
  pub parse_time : Bytes → Result E N
  pub write : Bytes → W → W × Option E

-- After a message: the loop goes on, or it stops.
pub data Next (E : Type 0) : Type 0 where
  goes_on : Next E
  stops : Stop E → Next E

abbrev pub is_text : Option Bytes → Bool
is_text none = false
is_text (some []) = false
is_text (some (b ∷ bs)) = true

-- `req.Meta["oneway"] != ""`
unfoldable pub is_oneway : Request → Bool
unfolding lookup
is_oneway req = is_text (lookup (bytes "oneway") (entries req.meta))

abbrev pub data_resp : Bytes → Response → Response
data_resp bs resp = record (set_head_length resp) {
  body_length = length bs % u32_mod;
  payload = bs;
}

abbrev pub new_resp : Request → Response
new_resp req = record {
  head_length = 0;
  body_length = 0;
  message_id = req.message_id;
  version = req.version;
  compressor = req.compressor;
  serializer = req.serializer;
  error = [];
  payload = [];
}

module _ {E W : Type 0} where
  abbrev pub after_write : W × Option E → W × Next E
  after_write (w, none) = (w, goes_on)
  after_write (w, some e) = (w, stops (failed (foreign e)))

module _ {E N W : Type 0} (calls : Calls E N W) where
  -- `conn.Write(message.EncodeResp(resp))`
  unfoldable pub write_resp : Response → W → W × Next E
  write_resp resp w = elim (encode_resp resp) [
    | err p ↦ (w, stops panicked)
    | ok bs ↦ after_write (calls.write bs w)
  ]

  -- `writeErrorResp` changes the response, which is used again.
  abbrev pub error_resp : Error E → Response → Response
  error_resp e resp = set_head_length (record resp { error = calls.text e })

  -- The loop over the metadata: a deadline that cannot be read is answered, and the loop goes on.
  unfoldable pub read_meta :
      List (Bytes × Bytes) → Ctx N → Response → W → W × (Ctx N × (Response × Next E))
  unfolding write_resp insert
  read_meta [] ctx resp w = (w, (ctx, (resp, goes_on)))
  read_meta ((key, value) ∷ m) ctx resp w =
      if beq key (bytes "timeout")
      then elim (calls.parse_time value) [
        | ok d ↦ read_meta m (record ctx { deadline = some d }) resp w
        | err e ↦
            let resp' = error_resp (foreign e) resp in
            let (w', next) = write_resp resp' w in
            elim next [
              | goes_on ↦ read_meta m ctx resp' w'
              | stops s ↦ (w', (ctx, (resp', stops s)))
            ]
      ]
      else read_meta m (record ctx { values = insert key value ctx.values }) resp w

  abbrev pub write_data : Response → W → Result E Bytes → W × Next E
  write_data resp w (err e) = write_resp (error_resp (foreign e) resp) w
  write_data resp w (ok bs) = write_resp (data_resp bs resp) w

  abbrev pub compress_by : Option (Option (Compressor E)) → Response → W → Bytes → W × Next E
  compress_by none resp w bs = (w, stops panicked)
  compress_by (some none) resp w bs = (w, stops panicked)
  compress_by (some (some c)) resp w bs = write_data resp w (c.compress bs)

module _ {V T E N W : Type 0} (calls : Calls E N W) where
  -- What follows on the call of the service.
  abbrev pub reply_with :
      Server V T E N W → Bool → Response → W × Result (Stop E) Bytes → W × Next E
  reply_with srv oneway resp (w, err panicked) = (w, stops panicked)
  reply_with srv oneway resp (w, err blocked) = (w, stops blocked)
  reply_with srv oneway resp (w, err (failed e)) =
      if oneway then (w, goes_on) else write_resp calls (error_resp calls e resp) w
  reply_with srv oneway resp (w, ok bs) =
      if oneway
      then (w, goes_on)
      else compress_by calls (get_elem? srv.compressors resp.compressor) resp w bs

  abbrev pub call_service :
      Server V T E N W
      → List (Bytes × Method V T E N W)
      → Request
      → W × (Ctx N × (Response × Next E))
      → W × Next E
  call_service srv methods req (w, (ctx, (resp, stops s))) = (w, stops s)
  call_service srv methods req (w, (ctx, (resp, goes_on))) =
      reply_with srv (is_oneway req) resp (invoke srv methods ctx req w)

  -- A round of `handleConn`, for a message that was read.
  unfoldable pub handle_req : Server V T E N W → Request → W → W × Next E
  unfolding lookup write_resp read_meta is_oneway invoke
  handle_req srv req w = elim (lookup req.service_name srv.services) [
    | none ↦ write_resp calls (error_resp calls service_not_found (new_resp req)) w
    | some methods ↦ call_service srv methods req (
        read_meta calls (entries req.meta) (record { deadline = none; values = [] }) (new_resp req)
          w)
  ]

  unfoldable pub handle_msg : Server V T E N W → Bytes → W → W × Next E
  unfolding handle_req
  handle_msg srv msg w = elim (decode_req msg) [
    | err p ↦ (w, stops panicked)
    | ok req ↦ handle_req srv req w
  ]

  -- `handleConn`, for so many messages at most; `none` is a loop that goes on.
  unfoldable pub handle_conn : ℕ → Server V T E N W → Conn → W → W × Option (Stop E)
  unfolding read_msg handle_msg
  handle_conn zero srv conn w = (w, none)
  handle_conn (suc fuel) srv conn w =
      let (conn', (msg, e)) = read_msg conn in
      elim e [
        | some x ↦ (w, some (failed (read_error x)))
        | none ↦
            let (w', next) = handle_msg srv msg w in
            elim next [ goes_on ↦ handle_conn fuel srv conn' w' | stops s ↦ (w', some s) ]
      ]
