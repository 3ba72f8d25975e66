-- ===== src/Shutdown/Steps.antt =====
-- advanced/graceful_shutdown/service/shutdown.go: the application, its servers, and the steps of
-- StartAndServe and of what it starts. What is logged is left out.
use go_study.Prelude.{
  ℕ, zero, suc, Bool, true, false, Option, none, some, List, [], ◌∷◌, if◌then◌else◌, length,
  get_elem?, Bytes,
}
use go_study.Shutdown.Groups.{
  Task, Group, new_group, start_next, end_at, spawn, finish, pass, fresh,
}
use go_study.Prelude.{replicate}

-- http.ServeMux; registering a handler may panic.
pub record ServeMux (M H Req Resp : Type 0) : Type 0 where
  pub new : M
  pub handle : Bytes → H → M → Option M
  pub serve : M → Req → Resp

-- `reject` is what `rejectReq` wrote last, `seen` the value that every later read certainly gets: the
-- flag is read and written without synchronisation.
pub record Server (M : Type 0) : Type 0 where
  pub name : Bytes
  pub addr : Bytes
  pub reject : Bool
  pub seen : Bool
  pub mux : M

-- `refused` is the status 503 with a text.
pub data Answer (Resp : Type 0) : Type 0 where
  refused : Answer Resp
  answered : Resp → Answer Resp

pub record App (M C : Type 0) : Type 0 where
  pub servers : List (Server M)
  pub shutdown_timeout : ℕ
  pub wait_time : ℕ
  pub cb_timeout : ℕ
  pub cbs : List C

-- Where StartAndServe is: it starts the servers, waits for a signal, and goes through the shutdown.
pub data Phase : Type 0 where
  starting serving : Phase
  rejecting : ℕ → Phase
  waiting closing calling_back releasing returned : Phase

-- `queued` is a signal in the channel, which holds one; `watching` is the goroutine that ends the
-- program.
pub record State (M C Resp : Type 0) : Type 0 where
  pub app : App M C
  pub phase : Phase
  pub queued : Bool
  pub watching : Bool
  pub exited : Bool
  pub listeners : List Task
  pub stops : Group
  pub calls : Group
  pub answers : List (Answer Resp)

-- `sees` is that the flag of a server, as it was written, is from now on read by all. A `request` may
-- read it `late`, as it certainly is, or as it was written last.
pub data Event (Req : Type 0) : Type 0 where
  main signal watcher timeout : Event Req
  listen_ends stop_returns callback_returns sees : ℕ → Event Req
  request : ℕ → Bool → Req → Event Req

module _ {M H Req Resp : Type 0} (mux : ServeMux M H Req Resp) where
  -- `NewServer`
  abbrev pub new_server : Bytes → Bytes → Server M
  new_server name addr = record {
    name = name;
    addr = addr;
    reject = false;
    seen = false;
    mux = mux.new;
  }

  -- `Server.Handle`
  unfoldable pub handle : Bytes → H → Server M → Option (Server M)
  handle pattern handler srv = elim (mux.handle pattern handler srv.mux) [
    | none ↦ none
    | some m ↦ some (record srv { mux = m })
  ]

  -- `serverMux.ServeHTTP`
  abbrev pub serve_http : Server M → (late : Bool) → Req → Answer Resp
  serve_http srv late req =
      if (if late then srv.seen else srv.reject) then refused else answered (mux.serve srv.mux req)

-- `server.rejectReq()`, for the server at a place.
unfoldable pub reject_at : {M : Type 0} → ℕ → List (Server M) → Option (List (Server M))
reject_at i [] = none
reject_at zero (srv ∷ srvs) = some (record srv { reject = true } ∷ srvs)
reject_at (suc i) (srv ∷ srvs) = elim (reject_at i srvs) [
  | none ↦ none
  | some rest ↦ some (srv ∷ rest)
]

unfoldable pub see_at : {M : Type 0} → ℕ → List (Server M) → Option (List (Server M))
see_at i [] = none
see_at zero (srv ∷ srvs) = some (record srv { seen = srv.reject } ∷ srvs)
see_at (suc i) (srv ∷ srvs) = elim (see_at i srvs) [ none ↦ none | some rest ↦ some (srv ∷ rest) ]

module _ {M C : Type 0} where
  -- `WithShutdownCallbacks`
  abbrev pub with_shutdown_callbacks : List C → App M C → App M C
  with_shutdown_callbacks cbs app = record app { cbs = cbs }

  abbrev pub with_options : List (App M C → App M C) → App M C → App M C
  with_options [] app = app
  with_options (opt ∷ opts) app = with_options opts (opt app)

  -- `NewApp`
  abbrev pub new_app : List (Server M) → List (App M C → App M C) → App M C
  new_app servers opts = with_options opts (record {
    servers = servers;
    shutdown_timeout = 30;
    wait_time = 10;
    cb_timeout = 3;
    cbs = [];
  })

-- Before `signal.Notify`, a signal ends the program.
abbrev pub is_starting : Phase → Bool
is_starting starting = true
is_starting serving = false
is_starting (rejecting i) = false
is_starting waiting = false
is_starting closing = false
is_starting calling_back = false
is_starting releasing = false
is_starting returned = false

module _ {M C Resp : Type 0} where
  -- `StartAndServe` begins.
  abbrev pub start : App M C → State M C Resp
  start app = record {
    app = app;
    phase = starting;
    queued = false;
    watching = false;
    exited = false;
    listeners = replicate (length app.servers) fresh;
    stops = new_group (length app.servers);
    calls = new_group (length app.cbs);
    answers = [];
  }

  abbrev pub go_to : Phase → State M C Resp → State M C Resp
  go_to p s = record s { phase = p }

  -- `rejectNewRequests`: one server, or the end of the loop.
  unfoldable pub reject_next : ℕ → State M C Resp → State M C Resp
  unfolding reject_at
  reject_next i s = elim (reject_at i s.app.servers) [
    | none ↦ go_to waiting s
    | some srvs ↦ record s { app = record s.app { servers = srvs }; phase = rejecting (suc i) }
  ]

  -- `closeServers`: a goroutine for a server, or the end of `wg.Wait()`.
  unfoldable pub close_next : State M C Resp → Option (State M C Resp)
  unfolding spawn pass
  close_next s = elim (spawn s.stops) [
    | some g ↦ some (record s { stops = g })
    | none ↦ if pass s.stops then some (go_to calling_back s) else none
  ]

  -- `runCallbacks`
  unfoldable pub call_next : State M C Resp → Option (State M C Resp)
  unfolding spawn pass
  call_next s = elim (spawn s.calls) [
    | some g ↦ some (record s { calls = g })
    | none ↦ if pass s.calls then some (go_to releasing s) else none
  ]

  unfoldable pub start_listener : State M C Resp → State M C Resp
  unfolding start_next
  start_listener s = elim (start_next s.listeners) [
    | none ↦ go_to serving s
    | some ts ↦ record s { listeners = ts }
  ]

  -- `waitCompleting`, after the sleep.
  abbrev pub wait_completing : State M C Resp → State M C Resp
  wait_completing s = go_to closing s

  -- `close`
  abbrev pub close_app : State M C Resp → State M C Resp
  close_app s = go_to returned s

  -- The next step of the main goroutine, `StartAndServe` with `shutdown`, if it does not wait.
  unfoldable pub main_step : Phase → State M C Resp → Option (State M C Resp)
  unfolding reject_next close_next call_next start_listener
  main_step starting s = some (start_listener s)
  main_step serving s =
      if s.queued
      then some (record s { queued = false; watching = true; phase = rejecting 0 })
      else none
  main_step (rejecting i) s = some (reject_next i s)
  main_step waiting s = some (wait_completing s)
  main_step closing s = close_next s
  main_step calling_back s = call_next s
  main_step releasing s = some (close_app s)
  main_step returned s = none

  -- What a signal does, before `signal.Notify` and behind it.
  abbrev pub signalled : Bool → State M C Resp → State M C Resp
  signalled b s = if b then record s { exited = true } else record s { queued = true }

  abbrev pub exit_if : Bool → State M C Resp → Option (State M C Resp)
  exit_if b s = if b then some (record s { exited = true }) else none

module _ {M H C Req Resp : Type 0} (mux : ServeMux M H Req Resp) where
  abbrev pub serve_at :
      Option (Server M) → (late : Bool) → Req → State M C Resp → Option (State M C Resp)
  serve_at none late req s = none
  serve_at (some srv) late req s =
      some (record s { answers = serve_http mux srv late req ∷ s.answers })

  -- An event, in a program that has not been ended.
  unfoldable pub happen : Event Req → State M C Resp → Option (State M C Resp)
  unfolding main_step end_at finish see_at
  happen main s = main_step s.phase s
  happen signal s = some (signalled (is_starting s.phase) s)
  happen watcher s = if s.queued then exit_if s.watching s else none
  happen timeout s = exit_if s.watching s
  happen (listen_ends i) s = elim (end_at i s.listeners) [
    | none ↦ none
    | some ts ↦ some (record s { listeners = ts })
  ]
  happen (stop_returns i) s = elim (finish i s.stops) [
    | none ↦ none
    | some g ↦ some (record s { stops = g })
  ]
  happen (callback_returns i) s = elim (finish i s.calls) [
    | none ↦ none
    | some g ↦ some (record s { calls = g })
  ]
  happen (sees i) s = elim (see_at i s.app.servers) [
    | none ↦ none
    | some srvs ↦ some (record s { app = record s.app { servers = srvs } })
  ]
  happen (request i late req) s = serve_at (get_elem? s.app.servers i) late req s

  unfoldable pub step : Event Req → State M C Resp → Option (State M C Resp)
  unfolding happen
  step e s = if s.exited then none else happen e s

  unfoldable pub run : List (Event Req) → State M C Resp → Option (State M C Resp)
  unfolding step
  run [] s = some s
  run (e ∷ es) s = elim (step e s) [ none ↦ none | some s' ↦ run es s' ]
