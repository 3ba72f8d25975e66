-- ===== src/Web/Server/Tests.antt =====
-- A server with two routes, and requests to it.
use mathlib.Core.List.{reverse}
use go_study.Prelude.{
  Bool, true, Option, none, some, [], ◌∷◌, ◌++◌, ◌≡◌, ◌⊎◌, refl, ok, err, Bytes, bytes, beq, lookup,
  insert, nest,
}
use go_study.Web.Router.{new_node, info, Trees, add_route, root_path, trim_slashes}
use go_study.Web.Router.Find.{MatchInfo, find_route}
use go_study.Web.Server.{
  key_not_found, Request, returns, panics, exits, HandleFunc, Middleware, HttpServer, header, body,
  serve, serve_http, new_context, recover, error_pages, query_value, path_value, resp_json,
  use_mdls, register_error,
}
use go_study.Web.Server.Chain.{matched, written, serve_http-nest, serve-add_route}
use go_study.Web.Server.Recovery.{recovered, serve_http-recovered}

abbrev user_path : Bytes
user_path = bytes "/u"

abbrev request : Request
request = record {
  method = bytes "GET";
  path = user_path;
  query = (bytes "q", bytes "1" ∷ []) ∷ [];
  form = err key_not_found;
  body = none;
}

abbrev write_ok : Bytes → Bool
write_ok s = true

abbrev hello : HandleFunc
hello c = returns (record c { resp_status_code = 200; resp_data = bytes "hi" })

abbrev broken : HandleFunc
broken c = panics (record c { resp_data = bytes "?" })

-- Marks the response, in front and behind.
abbrev mark : Bytes → Middleware
mark m next c = elim (next c) [
  | returns c' ↦ returns (record c' { resp_data = m ++ c'.resp_data ++ m })
  | panics c' ↦ panics c'
  | exits ↦ exits
]

abbrev handled : HandleFunc → Trees HandleFunc Middleware
handled h =
    (add_route [] (bytes "GET") user_path (some h) (mark (bytes "-") ∷ mark (bytes "+") ∷ [])).0

handled_quiet :
    (h : HandleFunc)
    → add_route [] (bytes "GET") user_path (some h) (mark (bytes "-") ∷ mark (bytes "+") ∷ [])
      ≡ (handled h, none)
unfolding add_route beq lookup insert
handled_quiet h = refl

serve-add_route_example :
    (mi : MatchInfo HandleFunc Middleware) × (find_route (handled hello) (bytes "GET") user_path
      ≡ some mi)
    × ((info mi.n).handler ≡ some hello)
    × (serve (handled hello) (new_context request)
        ≡ nest (reverse mi.mdls) hello (matched (new_context request) mi))
    × ((beq user_path root_path ≡ true)
        ⊎ ((matched (new_context request) mi).matched_route ≡ user_path))
serve-add_route_example =
    serve-add_route [] (handled hello) hello (mark (bytes "-") ∷ mark (bytes "+") ∷ [])
      (new_context request) tt (handled_quiet hello)

abbrev server : HttpServer
server = record { trees = handled hello; mdls = mark (bytes "1") ∷ mark (bytes "2") ∷ [] }

serve_http_runs :
    serve_http write_ok server request
    ≡ returns (record (new_context request) {
      sent = header 200 ∷ body (bytes "12+-hi-+21") ∷ [];
      resp_status_code = 200;
      resp_data = bytes "12+-hi-+21";
      matched_route = user_path;
    })
unfolding serve_http add_route trim_slashes lookup insert beq
serve_http_runs = refl

-- The root, its only child and what the request finds.
abbrev hello_match : Option (MatchInfo HandleFunc Middleware) → Bytes
hello_match none = []
hello_match (some mi) = (info mi.n).route

abbrev or_new : Option (MatchInfo HandleFunc Middleware) → MatchInfo HandleFunc Middleware
or_new (some mi) = mi
or_new none = record { n = new_node []; path_params = none; mdls = [] }

abbrev found : MatchInfo HandleFunc Middleware
found = or_new (find_route (handled hello) (bytes "GET") user_path)

is_found :
    (find_route (handled hello) (bytes "GET") user_path ≡ some found)
    × ((info found.n).handler ≡ some hello)
unfolding find_route add_route trim_slashes lookup insert beq
is_found = (refl, refl)

serve_http-nest_example :
    (serve_http write_ok server request
      ≡ written write_ok (nest server.mdls (serve server.trees) (new_context request)))
    × (serve server.trees (new_context request)
        ≡ nest (reverse found.mdls) hello (matched (new_context request) found))
serve_http-nest_example =
    serve_http-nest write_ok server request (new_context request) found hello is_found.0 is_found.1

abbrev careful : HttpServer
careful = record {
  trees = handled broken;
  mdls = recover 500 (bytes "!") (λ c. returns c) ∷ mark (bytes "1") ∷ [];
}

careful_runs :
    serve_http write_ok careful request
    ≡ returns (record (new_context request) {
      sent = header 500 ∷ body (bytes "!") ∷ [];
      resp_status_code = 500;
      resp_data = bytes "!";
      matched_route = user_path;
    })
unfolding serve_http recover add_route trim_slashes lookup insert beq
careful_runs = refl

serve_http-recovered_example :
    serve_http write_ok careful request
    ≡ recovered write_ok 500
        (bytes "!")
        (λ c. c)
        (nest (mark (bytes "1") ∷ []) (serve careful.trees) (new_context request))
serve_http-recovered_example =
    serve_http-recovered write_ok 500 (bytes "!") (λ c. c) refl (λ c. refl) (λ c. refl) (λ c. refl)
      careful (mark (bytes "1") ∷ []) request refl

context_runs :
    (query_value (bytes "q") (new_context request) ≡ (
      record (new_context request) { cache_query_values = some request.query },
      some (ok (bytes "1")),
    ))
    × (path_value (bytes "id") (record (new_context request) { path_params = some [] })
        ≡ err key_not_found)
    × ((resp_json 201 (ok (bytes "{}")) (new_context request)).1 ≡ none)
unfolding query_value path_value resp_json lookup beq
context_runs = (refl, refl, refl)

-- The page of a 404, in front of the status being written.
pages_run :
    serve_http write_ok
      (use_mdls
        (error_pages (register_error 404 (bytes "no") []) ∷ [])
        (record server { trees = []; mdls = [] }))
      request
    ≡ returns (record (new_context request) {
      sent = header 404 ∷ body (bytes "no") ∷ [];
      resp_status_code = 404;
      resp_data = bytes "no";
    })
unfolding serve_http use_mdls error_pages register_error lookup
pages_run = refl
