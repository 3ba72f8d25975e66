-- ===== src/Rpc/Client/Exchange.antt =====
-- rpc/homework1: the two halves of an exchange of messages, that of the server and that of the client.
use go_study.Prelude.{
  ℕ, ◌+◌, ◌%◌, ◌<◌, ◌≡◌, refl, sym, ap, ◌∙◌, Option, none, some, [], Result, ok, ◌>>=◌, length,
  Bytes, Lacks, arith, All, ==_iff,
}
use go_study.Rpc.Message.{
  splitter, u32_mod, Request, Response, cal_head_length, encode_req, decode_resp, set_head_length,
}
use go_study.Rpc.Message.Encode.{
  layout_resp, IsSizedResp, encode_resp-layout, cal_head_length-IsSized, names,
}
use go_study.Rpc.Message.RoundTrip.{IsCarried, decode_resp-encode_resp}
use go_study.Rpc.Message.Decode.{IsCleanEntry, HasDistinctKeys}
use go_study.Rpc.Message.Stream.{Conn, ReadError, read_msg}
use go_study.Rpc.Server.{Stop, Server}
use go_study.Rpc.Server.Conn.{Calls, Next, goes_on, handle_msg, handle_conn}
use go_study.Rpc.Client.{
  Client, Target, Transport, after_send, timeout_entries, new_request, do_invoke, invoke, call,
  read_reply, decoded, result_of,
}
use go_study.Rpc.Client.Served.{live_ctx, IsLossless, IsTimeFormat}

module _ {V T E N W : Type 0} (calls : Calls E N W) (srv : Server V T E N W) where
  pub handle_conn-one :
      (conn : Conn) (msg : Bytes) (s s' : W)
      → (read_msg conn).1 ≡ (msg, none)
      → handle_msg calls srv msg s ≡ (s', goes_on)
      → (handle_conn calls 1 srv conn s).0 ≡ s'
  unfolding handle_conn
  handle_conn-one conn msg s s' read handled =
      let got : handle_msg calls srv (read_msg conn).1.0 s ≡ (s', goes_on) =
        ap (λ (p : Bytes × Option ReadError). handle_msg calls srv p.0 s) read ∙ handled in
      rw (ap (λ (p : Bytes × Option ReadError). p.1) read, handle_conn)
        (rw (ap (λ (p : W × Next E). p.1) got) (ap (λ (p : W × Next E). p.0) got))

timeout_entries-clean :
    {N E : Type 0} (format_time : N → Bytes) (parse_time : Bytes → Result E N) (rounded : N → N)
    (times : IsTimeFormat format_time parse_time rounded) (d : Option N)
    → All IsCleanEntry (timeout_entries format_time d)
      × HasDistinctKeys (timeout_entries format_time d)
timeout_entries-clean format_time parse_time rounded times none = (tt, tt)
timeout_entries-clean format_time parse_time rounded times (some d) =
    (((ground arith, ground arith, times.clean d), tt), (tt, tt))

module _ {V T E N : Type 0} (client : Client V T E) (format_time : N → Bytes)
    (parse_time : Bytes → Result E N) (rounded : N → N)
    (times : IsTimeFormat format_time parse_time rounded) (target : Target T)
    (service_name : Lacks splitter target.service_name)
    (method_name : Lacks splitter target.method_name) where
  pub new_request-IsCarried :
      (d : Option N) (id : ℕ) (sent : Bytes)
      → id < u32_mod
      → 15
          + length (names (new_request client format_time target (live_ctx d) id sent))
          + length sent
        < u32_mod
      → IsCarried (new_request client format_time target (live_ctx d) id sent)
  unfolding new_request cal_head_length set_head_length
  new_request-IsCarried d id sent small fits = record {
    sized =
        cal_head_length-IsSized
          (record (new_request client format_time target (live_ctx d) id sent) { head_length = 0 })
          fits (omega arith);
    id = small;
    service = service_name;
    method = method_name;
    clean = (timeout_entries-clean format_time parse_time rounded times d).0;
    distinct = (timeout_entries-clean format_time parse_time rounded times d).1;
  }

decode_resp-layout_resp :
    (resp : Response)
    → IsSizedResp resp
    → resp.message_id < u32_mod
    → decode_resp (layout_resp resp) ≡ ok resp
decode_resp-layout_resp resp sized small =
    ap (λ r. r >>= decode_resp) (sym (encode_resp-layout resp sized))
    ∙ decode_resp-encode_resp resp sized small

module _ {E W : Type 0} (transport : Transport E W) where
  -- The client writes all of a request, and a whole response arrives.
  pub do_invoke-answered :
      (req : Request) (msg : Bytes) (resp : Response) (w w' : W) (conn : Conn)
      → transport.get w ≡ none
      → encode_req req ≡ ok msg
      → transport.write msg w ≡ (w', (length msg, none))
      → transport.inbox w' ≡ some conn
      → (read_msg conn).1 ≡ (layout_resp resp, none)
      → IsSizedResp resp
      → resp.message_id < u32_mod
      → do_invoke transport req w ≡ (w', ok resp)
  unfolding do_invoke
  do_invoke-answered req msg resp w w' conn gets enc sends arrives reads sized small =
      rw (gets, do_invoke)
        (rw enc (
          ap (after_send transport (length msg)) sends
          ∙ ap (λ r. (w', r))
              (rw ((==_iff (length msg) (length msg)).1 refl) (
                ap read_reply arrives
                ∙ ap (λ (p : Bytes × Option ReadError). decoded ([], p)) reads
                ∙ decoded_all))))
    where
      decoded_all : decoded {E = E} ([], (layout_resp resp, none)) ≡ ok resp
      decoded_all = rw (decode_resp-layout_resp resp sized small, decoded) refl

module _ {V T E N W : Type 0} (client : Client V T E) (format_time : N → Bytes)
    (transport : Transport E W) where
  pub call-do_invoke :
      (target : Target T) (d : Option N) (t : T) (arg : V) (there : Bytes) (resp : Response)
      (last : ℕ) (w w' : W)
      → IsLossless client t arg there
      → do_invoke transport
          (new_request client format_time target (live_ctx d) ((last + 1) % u32_mod) there)
          w
        ≡ (w', ok resp)
      → call client format_time transport target (live_ctx d) arg last w
        ≡ ((last + 1) % u32_mod, (w', result_of client target (ok resp)))
  unfolding call invoke
  call-do_invoke target d t arg there resp last w w' lossless invoked =
      rw (lossless.encodes, call)
        (rw lossless.compresses (
          ap
            (λ (p : W × Result (Stop E) Response).
              ((last + 1) % u32_mod, (p.0, result_of client target p.1)))
            invoked))

pub result_of-IsLossless :
    {V T E : Type 0} (client : Client V T E) (target : Target T) (res : V) (resp : Response)
    → IsLossless client target.out_type res resp.payload
    → result_of client target (ok resp) ≡ ok res
result_of-IsLossless client target res resp lossless =
    rw lossless.decompresses (rw lossless.decodes refl)
