-- ===== src/Web/Server.antt =====
-- web/homework2/server.go, context.go, middleware.go, middleware/errhdl and middleware/recovery.
-- A handler maps the context that it is given to the one that it leaves behind, or to a panic in it;
-- `exits` is log.Fatalln. What the http package computes of a request is part of the request:
-- the query and the form. `write_ok` says whether a write of the response succeeds. An int status
-- code is not negative.
pub mod Chain
pub mod Recovery
mod Tests
use mathlib.Core.List.{reverse}
use go_study.Prelude.{
  ℕ, zero, suc, Bool, true, false, Option, none, some, List, [], ◌∷◌, ◌++◌, ltb, ◌==◌,
  if◌then◌else◌, Result, ok, err, Bytes, beq, lookup, insert, apply_all,
}
use go_study.Web.Router.{Panic, Node, info, Trees, add_route}
use go_study.Web.Router.Find.{Params, MatchInfo, find_route}

pub data Error : Type 0 where
  no_body key_not_found bad_json bad_form bad_number : Error

pub record Request : Type 0 where
  pub method : Bytes
  pub path : Bytes
  pub query : List (Bytes × List Bytes)
  pub form : Result Error (Bytes → Bytes)
  pub body : Option Bytes

-- What a ResponseWriter is told.
pub data Sent : Type 0 where
  header : ℕ → Sent
  body : Bytes → Sent

pub record Context : Type 0 where
  pub req : Request
  pub sent : List Sent
  pub resp_status_code : ℕ
  pub resp_data : Bytes
  pub path_params : Params
  pub matched_route : Bytes
  pub cache_query_values : Option (List (Bytes × List Bytes))

pub data Outcome : Type 0 where
  returns panics : Context → Outcome
  exits : Outcome

abbrev pub HandleFunc : Type 0
HandleFunc = Context → Outcome

abbrev pub Middleware : Type 0
Middleware = HandleFunc → HandleFunc

-- context.go. A StringValue holds a value or an error; `none` is a panic.
abbrev pub StringValue : Type 0
StringValue = Result Error Bytes

unfoldable pub form_value : Bytes → Context → StringValue
form_value key c = elim c.req.form [ err e ↦ err e | ok values ↦ ok (values key) ]

abbrev pub query_values : Context → List (Bytes × List Bytes)
query_values c = elim c.cache_query_values [ none ↦ c.req.query | some values ↦ values ]

abbrev pub first_value : Option (List Bytes) → Option StringValue
first_value none = some (err key_not_found)
first_value (some []) = none
first_value (some (val ∷ vals)) = some (ok val)

unfoldable pub query_value : Bytes → Context → Context × Option StringValue
query_value key c = (
  record c { cache_query_values = some (query_values c) },
  first_value (lookup key (query_values c)),
)

abbrev pub param_value : Option Bytes → StringValue
param_value none = err key_not_found
param_value (some val) = ok val

unfoldable pub path_value : Bytes → Context → StringValue
path_value key c = elim c.path_params [
  | none ↦ err key_not_found
  | some params ↦ param_value (lookup key params)
]

-- `StringValue.ToInt64`, given strconv.ParseInt.
unfoldable pub to_int64 : {N : Type 0} → (Bytes → Result Error N) → StringValue → Result Error N
to_int64 parse (err e) = err e
to_int64 parse (ok s) = parse s

-- `RespJSON` and `BindJSON`, given what json makes of a value and of a text.
unfoldable pub resp_json : ℕ → Result Error Bytes → Context → Context × Option Error
resp_json code (err e) c = (c, some e)
resp_json code (ok bs) c = (record c { resp_status_code = code; resp_data = bs }, none)

unfoldable pub bind_json : {V : Type 0} → (Bytes → Result Error V) → Context → Result Error V
bind_json decode c = elim c.req.body [ none ↦ err no_body | some text ↦ decode text ]

-- server.go
pub record HttpServer : Type 0 where
  pub trees : Trees HandleFunc Middleware
  pub mdls : List Middleware

unfoldable pub use_mdls : List Middleware → HttpServer → HttpServer
use_mdls mdls s = record s { mdls = s.mdls ++ mdls }

unfoldable pub register_route :
    (method path : Bytes)
    → Option HandleFunc
    → List Middleware
    → HttpServer
    → HttpServer × Option Panic
register_route method path handler mdls s =
    let (trees, panic) = add_route s.trees method path handler mdls in
    (record s { trees = trees }, panic)

unfoldable pub use_v1 :
    (method path : Bytes) → List Middleware → HttpServer → HttpServer × Option Panic
unfolding register_route
use_v1 method path mdls = register_route method path none mdls

abbrev pub not_found : Context → Outcome
not_found c = returns (record c { resp_status_code = 404 })

abbrev pub run_match : Context → MatchInfo HandleFunc Middleware → Option HandleFunc → Outcome
run_match c mi none = not_found c
run_match c mi (some handler) =
    apply_all mi.mdls handler
      (record c { path_params = mi.path_params; matched_route = (info mi.n).route })

unfoldable pub serve : Trees HandleFunc Middleware → HandleFunc
unfolding apply_all find_route
serve trees c = elim (find_route trees c.req.method c.req.path) [
  | none ↦ not_found c
  | some mi ↦ run_match c mi (info mi.n).handler
]

abbrev pub sent_status : Context → List Sent
sent_status c =
    if ltb 0 c.resp_status_code then c.sent ++ (header c.resp_status_code ∷ []) else c.sent

unfoldable pub flash_resp : (Bytes → Bool) → HandleFunc
flash_resp write_ok c =
    if write_ok c.resp_data
    then returns (record c { sent = sent_status c ++ (body c.resp_data ∷ []) })
    else exits

-- The middleware that writes the response back, after everything else.
unfoldable pub flash_last : (Bytes → Bool) → Middleware
unfolding flash_resp
flash_last write_ok next c = elim (next c) [
  | returns c' ↦ flash_resp write_ok c'
  | panics c' ↦ panics c'
  | exits ↦ exits
]

abbrev pub new_context : Request → Context
new_context req = record {
  req = req;
  sent = [];
  resp_status_code = 0;
  resp_data = [];
  path_params = none;
  matched_route = [];
  cache_query_values = none;
}

-- `ServeHTTP`; the loop goes over the middlewares from the last to the first. That one of them panics
-- when it is put on, before there is a response, is left out.
unfoldable pub serve_http : (Bytes → Bool) → HttpServer → Request → Outcome
unfolding serve apply_all flash_last
serve_http write_ok s req =
    flash_last write_ok (apply_all (reverse s.mdls) (serve s.trees)) (new_context req)

-- middleware/errhdl
abbrev pub lookup_code : ℕ → List (ℕ × Bytes) → Option Bytes
lookup_code code [] = none
lookup_code code ((k, page) ∷ m) = if k == code then some page else lookup_code code m

unfoldable pub register_error : ℕ → Bytes → List (ℕ × Bytes) → List (ℕ × Bytes)
register_error code page [] = (code, page) ∷ []
register_error code page ((k, old) ∷ m) =
    if k == code then (k, page) ∷ m else (k, old) ∷ register_error code page m

abbrev pub set_page : Context → Option Bytes → Context
set_page c none = c
set_page c (some page) = record c { resp_data = page }

unfoldable pub error_pages : List (ℕ × Bytes) → Middleware
error_pages resp next c = elim (next c) [
  | returns c' ↦ returns (set_page c' (lookup_code c'.resp_status_code resp))
  | panics c' ↦ panics c'
  | exits ↦ exits
]

-- middleware/recovery; `log` is LogFunc, which may panic in its turn.
unfoldable pub recover : ℕ → Bytes → HandleFunc → Middleware
recover status_code err_msg log next c = elim (next c) [
  | returns c' ↦ returns c'
  | panics c' ↦ log (record c' { resp_status_code = status_code; resp_data = err_msg })
  | exits ↦ exits
]
