-- ===== src/Web/Server/Chain.antt =====
-- web/homework2/server.go: the order of the middlewares, and the way from a registration to the
-- handler.
use mathlib.Core.List.{reverse}
use go_study.Prelude.{
  Bool, true, none, some, List, ◌≡◌, ◌⊎◌, ap, Bytes, beq, nest, refl, ◌∙◌, ltb, if◌then◌else◌, [],
  ◌∷◌, ◌++◌, apply_all-reverse, apply_all-nest,
}
use go_study.Web.Router.{info, Trees, add_route, root_path}
use go_study.Web.Router.Find.{MatchInfo, find_route}
use go_study.Web.Router.Shape.{AreTrees}
use go_study.Web.Router.Registered.{add_route-IsFound}
use go_study.Web.Server.{
  Request, Context, Outcome, returns, panics, exits, header, body, flash_resp, HandleFunc,
  Middleware, HttpServer, run_match, serve, flash_last, new_context, serve_http,
}

-- What the handler is given.
abbrev pub matched : Context → MatchInfo HandleFunc Middleware → Context
matched c mi = record c { path_params = mi.path_params; matched_route = (info mi.n).route }

serve-nest :
    (trees : Trees HandleFunc Middleware) (c : Context) (mi : MatchInfo HandleFunc Middleware)
    (h : HandleFunc)
    → find_route trees c.req.method c.req.path ≡ some mi
    → (info mi.n).handler ≡ some h
    → serve trees c ≡ nest (reverse mi.mdls) h (matched c mi)
unfolding serve
serve-nest trees c mi h found handler =
    rw (found, serve)
      (rw (handler, run_match)
        (ap (λ (f : HandleFunc). f (matched c mi)) (apply_all-nest mi.mdls h)))

-- What becomes of a response: it is written, the status first, if it has one, or the program ends;
-- a panic is passed on with nothing written.
abbrev pub written : (Bytes → Bool) → Outcome → Outcome
written write_ok (returns c) =
    if write_ok c.resp_data
    then returns (record c {
      sent =
          (if ltb 0 c.resp_status_code then c.sent ++ (header c.resp_status_code ∷ []) else c.sent)
          ++ (body c.resp_data ∷ []);
    })
    else exits
written write_ok (panics c) = panics c
written write_ok exits = exits

pub flash_last-written :
    (write_ok : Bytes → Bool) (next : HandleFunc) (c : Context) (o : Outcome)
    → next c ≡ o
    → flash_last write_ok next c ≡ written write_ok o
unfolding flash_last flash_resp
flash_last-written write_ok next c (returns c') e = rw (e, flash_last) refl
flash_last-written write_ok next c (panics c') e = rw (e, flash_last) refl
flash_last-written write_ok next c exits e = rw (e, flash_last) refl

pub serve_http-nest_all :
    (write_ok : Bytes → Bool) (s : HttpServer) (req : Request)
    → serve_http write_ok s req
      ≡ flash_last write_ok (nest s.mdls (serve s.trees)) (new_context req)
unfolding serve_http
serve_http-nest_all write_ok s req =
    ap (λ (f : HandleFunc). flash_last write_ok f (new_context req))
      (apply_all-reverse s.mdls (serve s.trees))

-- The order of a request: the server's middlewares, the first one outermost, run around the match;
-- those of the tree run around the handler, the last one that was found outermost. When all of them
-- are done, and have neither panicked nor ended the program, the response that they leave is written,
-- the status first, if it is set; a write that fails ends the program.
pub serve_http-nest :
    (write_ok : Bytes → Bool) (s : HttpServer) (req : Request) (c : Context)
    (mi : MatchInfo HandleFunc Middleware) (h : HandleFunc)
    → find_route s.trees c.req.method c.req.path ≡ some mi
    → (info mi.n).handler ≡ some h
    → (serve_http write_ok s req ≡ written write_ok (nest s.mdls (serve s.trees) (new_context req)))
      × (serve s.trees c ≡ nest (reverse mi.mdls) h (matched c mi))
serve_http-nest write_ok s req c mi h found handler = (
  serve_http-nest_all write_ok s req
      ∙ flash_last-written write_ok (nest s.mdls (serve s.trees)) (new_context req) _ refl,
  serve-nest s.trees c mi h found handler,
)

-- After a registration that does not panic, in trees that are well shaped, a request for the very
-- method and path finds a node that has the handler that was registered, and runs that handler inside
-- the middlewares of what was found; the context has the path as its matched route, but for "/".
pub serve-add_route :
    (trees trees' : Trees HandleFunc Middleware) (h : HandleFunc) (ms : List Middleware)
    (c : Context)
    → AreTrees trees
    → add_route trees c.req.method c.req.path (some h) ms ≡ (trees', none)
    → (mi : MatchInfo HandleFunc Middleware) × (find_route trees' c.req.method c.req.path ≡ some mi)
      × ((info mi.n).handler ≡ some h)
      × (serve trees' c ≡ nest (reverse mi.mdls) h (matched c mi))
      × ((beq c.req.path root_path ≡ true) ⊎ ((matched c mi).matched_route ≡ c.req.path))
serve-add_route trees trees' h ms c shaped added =
    let found = add_route-IsFound trees trees' c.req.method c.req.path (some h) ms shaped added in
    (
      found.match,
      found.found,
      found.handler_eq,
      serve-nest trees' c found.match h found.found found.handler_eq,
      found.route_eq,
    )
