-- ===== src/Web/Server/Recovery.antt =====
-- web/homework2/middleware/recovery around a server.
use go_study.Prelude.{
  ℕ, Bool, List, [], ◌∷◌, ◌++◌, ◌≡◌, refl, ap, ◌∙◌, Bytes, true, ltb, append_assoc, if◌then◌else◌,
  nest,
}
use go_study.Web.Server.{
  Request, Context, Outcome, returns, panics, exits, Sent, header, body, HandleFunc, Middleware,
  HttpServer, serve, flash_last, new_context, serve_http, recover,
}
use go_study.Web.Server.Chain.{written, flash_last-written, serve_http-nest_all}

-- The answer to a panic that left a context: the error's status and message behind what was sent;
-- only a write that fails ends the program.
abbrev pub answered : (Bytes → Bool) → ℕ → Bytes → (Context → Context) → Context → Outcome
answered write_ok code msg log c =
    if write_ok msg
    then returns (record (log (record c { resp_status_code = code; resp_data = msg })) {
      sent = c.sent ++ (header code ∷ body msg ∷ []);
    })
    else exits

-- What a server with the recovery middleware in front makes of what runs inside it.
abbrev pub recovered : (Bytes → Bool) → ℕ → Bytes → (Context → Context) → Outcome → Outcome
recovered write_ok code msg log (returns c) = written write_ok (returns c)
recovered write_ok code msg log (panics c) = answered write_ok code msg log c
recovered write_ok code msg log exits = exits

recover-panics :
    (code : ℕ) (msg : Bytes) (log : Context → Context) (next : HandleFunc) (c c' : Context)
    → next c ≡ panics c'
    → recover code msg (λ c. returns (log c)) next c
      ≡ returns (log (record c' { resp_status_code = code; resp_data = msg }))
unfolding recover
recover-panics code msg log next c c' e = rw (e, recover) refl

-- A response whose status, text and what was sent before are known.
written_known :
    (write_ok : Bytes → Bool) (c : Context) (code : ℕ) (msg : Bytes) (sent : List Sent)
    → ltb 0 code ≡ true
    → c.resp_status_code ≡ code
    → c.resp_data ≡ msg
    → c.sent ≡ sent
    → written write_ok (returns c) ≡ (
        if write_ok msg
        then returns (record c { sent = sent ++ (header code ∷ body msg ∷ []) })
        else exits)
written_known write_ok c code msg sent some_code e f g =
    ap
      (λ m.
        if write_ok m
        then returns (record c {
          sent =
              (if ltb 0 c.resp_status_code
                then c.sent ++ (header c.resp_status_code ∷ [])
                else c.sent)
              ++ (body m ∷ []);
        })
        else exits)
      f
    ∙ ap (λ l. if write_ok msg then returns (record c { sent = l ++ (body msg ∷ []) }) else exits)
        (ap (λ n. if ltb 0 n then c.sent ++ (header n ∷ []) else c.sent) e
          ∙ ap (λ b. if b then c.sent ++ (header code ∷ []) else c.sent) some_code
          ∙ ap (λ l. l ++ (header code ∷ [])) g)
    ∙ ap (λ l. if write_ok msg then returns (record c { sent = l }) else exits)
        (append_assoc sent (header code ∷ []) (body msg ∷ []))

module _ (write_ok : Bytes → Bool) (code : ℕ) (msg : Bytes) (log : Context → Context)
    (some_code : ltb 0 code ≡ true)
    (keeps_code : (c : Context) → (log c).resp_status_code ≡ c.resp_status_code)
    (keeps_data : (c : Context) → (log c).resp_data ≡ c.resp_data)
    (keeps_sent : (c : Context) → (log c).sent ≡ c.sent) where
  flash_recover :
      (next : HandleFunc) (c : Context) (o : Outcome)
      → next c ≡ o
      → flash_last write_ok (recover code msg (λ c. returns (log c)) next) c
        ≡ recovered write_ok code msg log o
  unfolding recover
  flash_recover next c (returns c') e =
      flash_last-written write_ok _ c (returns c') (rw (e, recover) refl)
  flash_recover next c (panics c') e =
      let known = record c' { resp_status_code = code; resp_data = msg } in
      flash_last-written write_ok _ c _ (recover-panics code msg log next c c' e)
      ∙ written_known write_ok (log known) code msg c'.sent some_code (keeps_code known)
          (keeps_data known) (keeps_sent known)
  flash_recover next c exits e = flash_last-written write_ok _ c exits (rw (e, recover) refl)

  -- With the recovery middleware in front, a positive status, and a LogFunc that returns and leaves
  -- alone the status, the text and what was sent, a server answers a request whatever its other
  -- middlewares and handlers do: a panic in them is answered with exactly the error's status and
  -- message, behind what was sent before, a response is written as it is, and only a write that fails
  -- or one of them that ends the program ends it.
  pub serve_http-recovered :
      (s : HttpServer) (ms : List Middleware) (req : Request)
      → s.mdls ≡ recover code msg (λ c. returns (log c)) ∷ ms
      → serve_http write_ok s req
        ≡ recovered write_ok code msg log (nest ms (serve s.trees) (new_context req))
  serve_http-recovered s ms req e =
      serve_http-nest_all write_ok s req
      ∙ ap (λ l. flash_last write_ok (nest l (serve s.trees)) (new_context req)) e
      ∙ flash_recover (nest ms (serve s.trees)) (new_context req) _ refl
