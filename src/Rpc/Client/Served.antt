-- ===== src/Rpc/Client/Served.antt =====
-- rpc/homework1: a call that is served, from the arguments of the client's function to its results.
use go_study.Prelude.{
  ◌+◌, ◌<◌, ◌≡◌, refl, ap, ◌∙◌, false, Option, none, some, List, [], ◌∷◌, ◌++◌, Result, ok, err,
  length, get_elem?, Bytes, bytes, beq, lookup, Lacks, arith,
}
use go_study.Rpc.Message.{splitter, u32_mod, Request, Response, entries, set_head_length}
use go_study.Rpc.Message.Encode.{layout_resp, IsSizedResp, encode_resp-layout}
use go_study.Rpc.Message.RoundTrip as RoundTrip
use go_study.Rpc.Message.RoundTrip.{IsCarried, decode_req-layout, decode_resp-encode_resp}
use go_study.Rpc.Server.{
  Error, service_not_found, Stop, Ctx, Method, Server, foreign, failed, invoke, prepare, pick,
  encoded, checked,
}
use go_study.Rpc.Server.Conn.{
  Calls, Next, goes_on, write_resp, call_service, reply_with, compress_by, write_data, is_text,
  handle_req, new_resp, data_resp, error_resp, is_oneway, read_meta,
}
use go_study.Rpc.Client.{Client, CallCtx, Target, timeout_entries}
use go_study.Rpc.Client.EndToEnd.{server_calls}

-- A context that is not oneway, and not done before the call ends.
abbrev pub live_ctx : {N : Type 0} → Option N → CallCtx N
live_ctx d = record { oneway = false; deadline = d; done_before = false; done_during = false }

-- The server has the function, and the serializer and the compressor that the client names.
pub record Offers {V T E N W : Type 0} (srv : Server V T E N W) (client : Client V T E)
    (target : Target T) (m : Method V T E N W) : Type 0 where
  pub methods : List (Bytes × Method V T E N W)
  pub service : lookup target.service_name srv.services ≡ some methods
  pub method : lookup target.method_name methods ≡ some m
  pub serializer : get_elem? srv.serializers client.serializer.code ≡ some (some client.serializer)
  pub compressor : get_elem? srv.compressors client.compressor.code ≡ some (some client.compressor)
  pub service_name : Lacks splitter target.service_name
  pub method_name : Lacks splitter target.method_name

-- The bytes of a value on the wire, from which its reader gets the value back.
pub record IsLossless {V T E : Type 0} (client : Client V T E) (t : T) (v : V) (sent : Bytes)
    : Type 0 where
  pub plain : Bytes
  pub encodes : client.serializer.encode v ≡ ok plain
  pub compresses : client.compressor.compress plain ≡ ok sent
  pub decompresses : client.compressor.decompress sent ≡ ok plain
  pub decodes : client.serializer.decode t plain ≡ ok v

-- A deadline is sent as text without line breaks, from which the server reads a point in time: the
-- deadline, rounded to a millisecond.
pub record IsTimeFormat {N E : Type 0} (format_time : N → Bytes) (parse_time : Bytes → Result E N)
    (rounded : N → N) : Type 0 where
  pub parses : (d : N) → parse_time (format_time d) ≡ ok (rounded d)
  pub clean : (d : N) → Lacks splitter (format_time d)

module _ {N : Type 0} (rounded : N → N) where
  abbrev pub served_ctx : Option N → Ctx N
  served_ctx none = record { deadline = none; values = [] }
  served_ctx (some d) = record { deadline = some (rounded d); values = [] }

pub entries-read_meta : (m : List (Bytes × Bytes)) → entries (RoundTrip.read_meta m) ≡ m
entries-read_meta [] = refl
entries-read_meta (e ∷ m) = refl

module _ {E N W : Type 0} (text : Error E → Bytes) (parse_time : Bytes → Result E N)
    (format_time : N → Bytes) (rounded : N → N)
    (times : IsTimeFormat format_time parse_time rounded) where
  read_meta-timeout_entries :
      (d : Option N) (resp : Response) (s : W × List Bytes)
      → read_meta
          (server_calls text parse_time)
          (timeout_entries format_time d)
          (record { deadline = none; values = [] })
          resp
          s
        ≡ (s, (served_ctx rounded d, (resp, goes_on)))
  unfolding read_meta beq
  read_meta-timeout_entries none resp s = refl
  read_meta-timeout_entries (some d) resp s = rw (times.parses d) refl

lookup_oneway :
    {N : Type 0} (format_time : N → Bytes) (d : Option N)
    → lookup (bytes "oneway") (timeout_entries format_time d) ≡ none
unfolding lookup beq
lookup_oneway format_time none = refl
lookup_oneway format_time (some d) = refl

is_oneway-entries :
    {N : Type 0} (format_time : N → Bytes) (d : Option N) (req : Request)
    → entries req.meta ≡ timeout_entries format_time d
    → is_oneway req ≡ false
unfolding is_oneway
is_oneway-entries format_time d req meta =
    ap (λ m. is_text (lookup (bytes "oneway") m)) meta ∙ ap is_text (lookup_oneway format_time d)

module _ {E N W : Type 0} (text : Error E → Bytes) (parse_time : Bytes → Result E N) where
  write_resp-server_calls :
      (resp : Response) (s : W × List Bytes)
      → IsSizedResp resp
      → write_resp (server_calls text parse_time) resp s
        ≡ ((s.0, s.1 ++ (layout_resp resp ∷ [])), goes_on)
  unfolding write_resp
  write_resp-server_calls resp s sized = rw (encode_resp-layout resp sized, write_resp) refl

module _ {V T E N W : Type 0} {srv : Server V T E N W} {client : Client V T E} {target : Target T}
    {m : Method V T E N W} (offers : Offers srv client target m) where
  -- What the server takes out of a request of the client.
  prepare-Offers :
      (req : Request) (v : V)
      → req.serializer ≡ client.serializer.code
      → req.compressor ≡ client.compressor.code
      → req.method_name ≡ target.method_name
      → IsLossless client m.in_type v req.payload
      → prepare srv offers.methods req ≡ ok (client.serializer, (m, v))
  unfolding prepare pick
  prepare-Offers req v s c n lossless =
      rw (s, offers.serializer)
        (rw (c, offers.compressor)
          (rw (n, offers.method) (rw lossless.decompresses (rw lossless.decodes refl))))

  -- The service is called, and its result encoded.
  invoke-Offers :
      (ctx : Ctx N) (req : Request) (v : V) (res : V × Option E) (w w' : W)
      (r : Result (Stop E) Bytes)
      → req.serializer ≡ client.serializer.code
      → req.compressor ≡ client.compressor.code
      → req.method_name ≡ target.method_name
      → IsLossless client m.in_type v req.payload
      → m.run ctx v w ≡ (w', res)
      → encoded client.serializer (w', res) ≡ (w', r)
      → invoke srv offers.methods ctx req w ≡ (w', r)
  unfolding invoke
  invoke-Offers ctx req v res w w' r s c n lossless runs enc =
      rw (prepare-Offers req v s c n lossless, invoke) (ap (encoded client.serializer) runs ∙ enc)

-- The answer to a request that is served.
abbrev pub served_resp : Bytes → Request → Response
served_resp sent req = data_resp sent (new_resp req)

pub served_resp-IsSizedResp :
    (sent : Bytes) (req : Request) → 15 + length sent < u32_mod → IsSizedResp (served_resp sent req)
unfolding set_head_length
served_resp-IsSizedResp sent req fits = record {
  head = refl;
  body = omega arith;
  total = omega arith;
}

-- The answer with the text of an error.
abbrev pub failed_resp : Bytes → Request → Response
failed_resp error req = set_head_length (record (new_resp req) { error = error })

pub failed_resp-IsSizedResp :
    (error : Bytes) (req : Request)
    → 15 + length error < u32_mod
    → IsSizedResp (failed_resp error req)
unfolding set_head_length
failed_resp-IsSizedResp error req fits = record {
  head = omega arith;
  body = refl;
  total = omega arith;
}

module _ {V T E N W : Type 0} (text : Error E → Bytes) (parse_time : Bytes → Result E N)
    (format_time : N → Bytes) (rounded : N → N)
    (times : IsTimeFormat format_time parse_time rounded) (srv : Server V T E N (W × List Bytes))
    (client : Client V T E) (target : Target T) (m : Method V T E N (W × List Bytes))
    (offers : Offers srv client target m) where
  -- With the message's deadline in its context, the stub is called, and its result replied.
  handle_req-invoke :
      (d : Option N) (req : Request) (w : W) (ran : (W × List Bytes) × Result (Stop E) Bytes)
      → entries req.meta ≡ timeout_entries format_time d
      → req.service_name ≡ target.service_name
      → invoke srv offers.methods (served_ctx rounded d) req (w, []) ≡ ran
      → handle_req (server_calls text parse_time) srv req (w, [])
        ≡ reply_with (server_calls text parse_time) srv false (new_resp req) ran
  unfolding handle_req
  handle_req-invoke d req w ran meta service invoked =
      ap (λ known. from known) (ap (λ k. lookup k srv.services) service ∙ offers.service)
      ∙ ap
          (λ ms.
            call_service calls srv offers.methods req
              (read_meta calls ms (record { deadline = none; values = [] }) (new_resp req) (w, [])))
          meta
      ∙ ap (call_service calls srv offers.methods req) (
          read_meta-timeout_entries text parse_time format_time rounded times d (new_resp req)
            (w, []))
      ∙ ap
          (λ o.
            reply_with calls srv o (new_resp req)
              (invoke srv offers.methods (served_ctx rounded d) req (w, [])))
          (is_oneway-entries format_time d req meta)
      ∙ ap (reply_with calls srv false (new_resp req)) invoked
    where
      calls : Calls E N (W × List Bytes)
      calls = server_calls text parse_time

      from : Option (List (Bytes × Method V T E N (W × List Bytes))) → (W × List Bytes) × Next E
      from known = elim known [
        | none ↦ write_resp calls (error_resp calls service_not_found (new_resp req)) (w, [])
        | some methods ↦ call_service calls srv methods req (
            read_meta calls (entries req.meta) (record { deadline = none; values = [] })
              (new_resp req) (w, []))
      ]

  pub handle_req-served :
      (d : Option N) (req : Request) (v res : V) (sent : Bytes) (w w' : W)
      → entries req.meta ≡ timeout_entries format_time d
      → req.service_name ≡ target.service_name
      → req.serializer ≡ client.serializer.code
      → req.compressor ≡ client.compressor.code
      → req.method_name ≡ target.method_name
      → IsLossless client m.in_type v req.payload
      → m.run (served_ctx rounded d) v (w, []) ≡ ((w', []), (res, none))
      → IsLossless client target.out_type res sent
      → 15 + length sent < u32_mod
      → handle_req (server_calls text parse_time) srv req (w, [])
        ≡ ((w', layout_resp (served_resp sent req) ∷ []), goes_on)
  handle_req-served d req v res sent w w' meta service s c n there runs back fits =
      handle_req-invoke d req w ((w', []), ok back.plain) meta service
        (invoke-Offers offers (served_ctx rounded d) req v (res, none) (w, []) (w', [])
          (ok back.plain) s c n there runs (ap (λ r. (((w', []), checked r))) back.encodes))
      ∙ ap (λ k. compress_by calls k (new_resp req) (w', []) back.plain)
          (ap (get_elem? srv.compressors) c ∙ offers.compressor)
      ∙ ap (write_data calls (new_resp req) (w', [])) back.compresses
      ∙ write_resp-server_calls text parse_time (served_resp sent req) (w', [])
          (served_resp-IsSizedResp sent req fits)
    where
      calls : Calls E N (W × List Bytes)
      calls = server_calls text parse_time

  pub handle_req-failed :
      (d : Option N) (req : Request) (v res : V) (e : E) (w w' : W)
      → entries req.meta ≡ timeout_entries format_time d
      → req.service_name ≡ target.service_name
      → req.serializer ≡ client.serializer.code
      → req.compressor ≡ client.compressor.code
      → req.method_name ≡ target.method_name
      → IsLossless client m.in_type v req.payload
      → m.run (served_ctx rounded d) v (w, []) ≡ ((w', []), (res, some e))
      → 15 + length (text (foreign e)) < u32_mod
      → handle_req (server_calls text parse_time) srv req (w, [])
        ≡ ((w', layout_resp (failed_resp (text (foreign e)) req) ∷ []), goes_on)
  handle_req-failed d req v res e w w' meta service s c n there runs fits =
      handle_req-invoke d req w ((w', []), err (failed (foreign e))) meta service
        (invoke-Offers offers (served_ctx rounded d) req v (res, some e) (w, []) (w', [])
          (err (failed (foreign e))) s c n there runs refl)
      ∙ write_resp-server_calls text parse_time (failed_resp (text (foreign e)) req) (w', [])
          (failed_resp-IsSizedResp (text (foreign e)) req fits)
