-- ===== src/Rpc/Client/Returns.antt =====
-- rpc/homework1: what the function of the client returns, when a server is at the other end.
use go_study.Prelude.{
  ℕ, ◌+◌, ◌%◌, ◌<◌, ◌≡◌, refl, ap, ◌∙◌, Option, none, some, List, [], ◌∷◌, Result, ok, err, ◌>>=◌,
  length, Bytes, Lacks, arith,
}
use go_study.Rpc.Message.{
  splitter, u32_mod, Request, Response, entries, cal_head_length, set_head_length,
}
use go_study.Rpc.Message.Encode.{layout, layout_resp, IsSizedResp, encode_req-layout, names}
use go_study.Rpc.Message.RoundTrip.{IsCarried, read_meta, decode_req-layout}
use go_study.Rpc.Message.Stream.{Conn}
use go_study.Rpc.Message.Stream.Arriving.{layout-IsFramed, layout_resp-IsFramed}
use go_study.Rpc.Server.{Error, Method, Server, foreign, panicked, checked}
use go_study.Rpc.Server.Conn.{goes_on, stops, handle_req, handle_msg}
use go_study.Rpc.Client.{Client, Target, new_request, call, result_of}
use go_study.Rpc.Client.EndToEnd.{
  IsSplit, read_msg-split, server_calls, server_transport, answer_of,
}
use go_study.Rpc.Client.Served.{
  live_ctx, Offers, IsLossless, IsTimeFormat, served_ctx, served_resp, served_resp-IsSizedResp,
  handle_req-served, handle_req-failed, failed_resp, failed_resp-IsSizedResp, entries-read_meta,
}
use go_study.Rpc.Client.Exchange.{
  handle_conn-one, new_request-IsCarried, do_invoke-answered, call-do_invoke, result_of-IsLossless,
}

module _ {V T E N W : Type 0} (text : Error E → Bytes) (parse_time : Bytes → Result E N)
    (format_time : N → Bytes) (rounded : N → N)
    (times : IsTimeFormat format_time parse_time rounded) (split : Bytes → Conn)
    (is_split : IsSplit split) (srv : Server V T E N (W × List Bytes)) (client : Client V T E)
    (target : Target T) where
  -- What the server reads.
  abbrev arrived : Request → Request
  arrived req = record req { meta = read_meta (entries req.meta) }

  server_transport-write :
      (req : Request) (resp : Response) (w w' : W) (inbox : Option Conn)
      → IsCarried req
      → handle_req (server_calls text parse_time) srv (arrived req) (w, [])
        ≡ ((w', layout_resp resp ∷ []), goes_on)
      → (server_transport text parse_time split srv).write (layout req) (w, inbox)
        ≡ ((w', some (split (layout_resp resp))), (length (layout req), none))
  unfolding handle_msg
  server_transport-write req resp w w' inbox carried handled =
      ap (λ t. ((t.0, answer_of text parse_time split srv t.1), (length (layout req), none)))
        (handle_conn-one (server_calls text parse_time) srv (split (layout req)) (layout req)
          (w, []) (w', layout_resp resp ∷ [])
          (read_msg-split split is_split req.head_length req.body_length (layout req)
            (layout-IsFramed req carried.sized))
          (ap
              (λ r. elim r [
                | err p ↦ ((w, []), stops panicked)
                | ok req' ↦ handle_req (server_calls text parse_time) srv req' (w, [])
              ])
              (decode_req-layout req carried)
            ∙ handled))

  -- A call that the server answers.
  call-answered :
      (d : Option N) (t : T) (arg : V) (there : Bytes) (last : ℕ) (resp : Response) (w w' : W)
      (inbox : Option Conn)
      → Lacks splitter target.service_name
      → Lacks splitter target.method_name
      → IsLossless client t arg there
      → 15
          + length (
              names
                (new_request client format_time target (live_ctx d) ((last + 1) % u32_mod) there))
          + length there
        < u32_mod
      → handle_req
          (server_calls text parse_time)
          srv
          (arrived
            (new_request client format_time target (live_ctx d) ((last + 1) % u32_mod) there))
          (w, [])
        ≡ ((w', layout_resp resp ∷ []), goes_on)
      → IsSizedResp resp
      → resp.message_id < u32_mod
      → call client format_time
          (server_transport text parse_time split srv)
          target
          (live_ctx d)
          arg
          last
          (w, inbox)
        ≡ (
          (last + 1) % u32_mod,
          ((w', some (split (layout_resp resp))), result_of client target (ok resp)),
        )
  call-answered d t arg there last resp w w' inbox service method lossless fits handled sized
        small =
      let id = (last + 1) % u32_mod in
      let req = new_request client format_time target (live_ctx d) id there in
      let carried =
        new_request-IsCarried client format_time parse_time rounded times target service method d id
          there (omega arith) fits in
      call-do_invoke client format_time (server_transport text parse_time split srv) target d t arg
        there resp last (w, inbox) (w', some (split (layout_resp resp))) lossless
        (do_invoke-answered (server_transport text parse_time split srv) req (layout req) resp
          (w, inbox) (w', some (split (layout_resp resp))) (split (layout_resp resp)) refl
          (encode_req-layout req carried.sized)
          (server_transport-write req resp w w' inbox carried handled) refl
          (read_msg-split split is_split resp.head_length resp.body_length (layout_resp resp)
            (layout_resp-IsFramed resp sized))
          sized small)

  module _ (m : Method V T E N (W × List Bytes)) (offers : Offers srv client target m) where
    -- A call from a live context, to a server that has the function and the codecs of the client,
    -- over a connection that cuts messages into chunks, the first one of eight bytes at least: when
    -- the service, with the client's deadline, rounded, in its context, returns a result without an
    -- error, the client's function returns that result, and the service has run once; the messages are
    -- below 2 ^ 32 bytes, the names hold no line feed, and what serializer and compressor make of the
    -- argument and the result is read back by them.
    pub call-served :
        (d : Option N) (arg res : V) (there back : Bytes) (last : ℕ) (w w' : W)
        (inbox : Option Conn)
        → IsLossless client m.in_type arg there
        → m.run (served_ctx rounded d) arg (w, []) ≡ ((w', []), (res, none))
        → IsLossless client target.out_type res back
        → 15
            + length (
                names
                  (new_request client format_time target (live_ctx d) ((last + 1) % u32_mod) there))
            + length there
          < u32_mod
        → 15 + length back < u32_mod
        → let ran =
            call client format_time
              (server_transport text parse_time split srv)
              target
              (live_ctx d)
              arg
              last
              (w, inbox) in
          (ran.1.1 ≡ ok res) × (ran.1.0.0 ≡ w')
    unfolding new_request cal_head_length set_head_length
    call-served d arg res there back last w w' inbox lossless runs lossless' fits fits' =
        let req = new_request client format_time target (live_ctx d) ((last + 1) % u32_mod) there in
        let e =
          call-answered d m.in_type arg there last (served_resp back (arrived req)) w w' inbox
            offers.service_name offers.method_name lossless fits
            (handle_req-served text parse_time format_time rounded times srv client target m offers
              d (arrived req) arg res back w w' (entries-read_meta (entries req.meta)) refl refl
              refl refl lossless runs lossless' fits')
            (served_resp-IsSizedResp back (arrived req) fits') (omega arith) in
        (
          ap (λ r. r.1.1) e
              ∙ result_of-IsLossless client target res (served_resp back (arrived req)) lossless',
          ap (λ r. r.1.0.0) e,
        )

    -- For such a call, with messages below 2 ^ 32 bytes and an argument that is read back, when the
    -- service returns an error, whatever it is, the client's function does not return it: what it
    -- returns is what decompressing and decoding no bytes gives.
    pub call-failed :
        (d : Option N) (arg res : V) (e : E) (there : Bytes) (last : ℕ) (w w' : W)
        (inbox : Option Conn)
        → IsLossless client m.in_type arg there
        → m.run (served_ctx rounded d) arg (w, []) ≡ ((w', []), (res, some e))
        → 15
            + length (
                names
                  (new_request client format_time target (live_ctx d) ((last + 1) % u32_mod) there))
            + length there
          < u32_mod
        → 15 + length (text (foreign e)) < u32_mod
        → (call client format_time
            (server_transport text parse_time split srv)
            target
            (live_ctx d)
            arg
            last
            (w, inbox)).1.1
          ≡ (checked (client.compressor.decompress []) >>= λ bs.
              checked (client.serializer.decode target.out_type bs))
    unfolding new_request cal_head_length set_head_length
    call-failed d arg res e there last w w' inbox lossless runs fits fits' =
        let req = new_request client format_time target (live_ctx d) ((last + 1) % u32_mod) there in
        ap (λ r. r.1.1)
          (call-answered d m.in_type arg there last (failed_resp (text (foreign e)) (arrived req)) w
            w' inbox offers.service_name offers.method_name lossless fits
            (handle_req-failed text parse_time format_time rounded times srv client target m offers
              d (arrived req) arg res e w w' (entries-read_meta (entries req.meta)) refl refl refl
              refl lossless runs fits')
            (failed_resp-IsSizedResp (text (foreign e)) (arrived req) fits') (omega arith))
