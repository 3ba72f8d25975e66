-- ===== src/Rpc/Client.antt =====
-- rpc/homework1/client.go, with context.go and proxy.go: the functions that InitService puts into the
-- fields of a service, and Invoke.
pub mod EndToEnd
pub mod Served
pub mod Exchange
pub mod Returns
mod Tests
use go_study.Prelude.{
  ℕ, ◌+◌, ◌%◌, Bool, true, false, Option, none, some, List, [], ◌∷◌, ◌++◌, ◌==◌, if◌then◌else◌,
  Result, ok, err, ◌>>=◌, length, Bytes, bytes,
}
use go_study.Rpc.Message.{u32_mod, Request, Response, cal_head_length, encode_req, decode_resp}
use go_study.Rpc.Message.Stream.{Conn, ReadError, read_msg}
use go_study.Rpc.Server.{
  Serializer, Compressor, Error, not_all_written, done, foreign, read_error, Stop, failed, panicked,
  blocked, checked,
}

pub record Client (V T E : Type 0) : Type 0 where
  pub serializer : Serializer V T E
  pub compressor : Compressor E

-- What the client asks of a context: isOneway, and the deadline; and whether it is done before the
-- call, or while the call runs.
pub record CallCtx (N : Type 0) : Type 0 where
  pub oneway : Bool
  pub deadline : Option N
  pub done_before : Bool
  pub done_during : Bool

-- The pool and a connection: the error of `Get`; what `Write` wrote, and its error; and what arrives
-- then, if anything ever does.
pub record Transport (E W : Type 0) : Type 0 where
  pub get : W → Option E
  pub write : Bytes → W → W × (ℕ × Option E)
  pub inbox : W → Option Conn

-- A function of a service: its names, and the type of its first result.
pub record Target (T : Type 0) : Type 0 where
  pub service_name : Bytes
  pub method_name : Bytes
  pub out_type : T

module _ {N : Type 0} (format_time : N → Bytes) where
  abbrev pub timeout_entries : Option N → List (Bytes × Bytes)
  timeout_entries none = []
  timeout_entries (some d) = (bytes "timeout", format_time d) ∷ []

  abbrev pub client_meta : CallCtx N → List (Bytes × Bytes)
  client_meta ctx =
      if ctx.oneway
      then (bytes "oneway", bytes "true") ∷ timeout_entries ctx.deadline
      else timeout_entries ctx.deadline

module _ {V T E N : Type 0} (client : Client V T E) (format_time : N → Bytes) where
  unfoldable pub new_request : Target T → CallCtx N → ℕ → Bytes → Request
  new_request target ctx msg_id bs = cal_head_length (record {
    head_length = 0;
    body_length = length bs % u32_mod;
    message_id = msg_id;
    version = 0;
    compressor = client.compressor.code;
    serializer = client.serializer.code;
    service_name = target.service_name;
    method_name = target.method_name;
    meta = some (client_meta format_time ctx);
    payload = bs;
  })

module _ {E : Type 0} where
  abbrev pub decoded : Conn × (Bytes × Option ReadError) → Result (Stop E) Response
  decoded (conn, (msg, some e)) = err (failed (read_error e))
  decoded (conn, (msg, none)) = elim (decode_resp msg) [ err p ↦ err panicked | ok resp ↦ ok resp ]

  -- A client waits for an answer whatever it has sent.
  abbrev pub read_reply : Option Conn → Result (Stop E) Response
  read_reply none = err blocked
  read_reply (some conn) = decoded (read_msg conn)

module _ {E W : Type 0} (transport : Transport E W) where
  abbrev pub after_send : ℕ → W × (ℕ × Option E) → W × Result (Stop E) Response
  after_send size (w, (n, some e)) = (w, err (failed (foreign e)))
  after_send size (w, (n, none)) =
      (w, if n == size then read_reply (transport.inbox w) else err (failed not_all_written))

  -- `doInvoke`; the connection is not given back to the pool.
  unfoldable pub do_invoke : Request → W → W × Result (Stop E) Response
  unfolding read_msg
  do_invoke req w = elim (transport.get w) [
    | some e ↦ (w, err (failed (foreign e)))
    | none ↦ elim (encode_req req) [
      | err p ↦ (w, err panicked)
      | ok bs ↦ after_send (length bs) (transport.write bs w)
    ]
  ]

  -- `Invoke`; the call goes on behind a context that is done.
  unfoldable pub invoke : {N : Type 0} → CallCtx N → Request → W → W × Result (Stop E) Response
  unfolding do_invoke
  invoke ctx req w =
      let (w', result) = do_invoke req w in
      if ctx.done_before
      then (w, err (failed done))
      else if ctx.done_during
      then (w', err (failed done))
      else (w', result)

module _ {V T E : Type 0} (client : Client V T E) where
  -- The error of the response is not looked at.
  abbrev pub result_of : Target T → Result (Stop E) Response → Result (Stop E) V
  result_of target r = do
    resp ← r
    bs ← checked (client.compressor.decompress resp.payload)
    checked (client.serializer.decode target.out_type bs)

  abbrev pub packed : V → Result (Stop E) Bytes
  packed arg = do
    bs ← checked (client.serializer.encode arg)
    checked (client.compressor.compress bs)

module _ {V T E N W : Type 0} (client : Client V T E) (format_time : N → Bytes)
    (transport : Transport E W) where
  -- The function that InitService makes: the last message id, the state and the result afterwards.
  -- What is returned beside an error is left out.
  unfoldable pub call : Target T → CallCtx N → V → ℕ → W → ℕ × (W × Result (Stop E) V)
  unfolding new_request invoke
  call target ctx arg last w = elim (packed client arg) [
    | err s ↦ (last, (w, err s))
    | ok bs ↦
        let id = (last + 1) % u32_mod in
        let (w', r) = invoke transport ctx (new_request client format_time target ctx id bs) w in
        (id, (w', result_of client target r))
  ]
