-- ===== src/Shutdown/Rejects.antt =====
-- advanced/graceful_shutdown: what requests are answered during a shutdown.
use go_study.Prelude.{
  ℕ, ◌≡◌, refl, sym, ap, ◌∙◌, subst, inl, inr, Bool, true, false, none, some, List, [], ◌∷◌, ◌++◌,
  arith, if◌then◌else◌, All, Option-cases, Bool-cases, get_elem?, append_assoc,
}
use mathlib.Core.Option.{some-injective}
use go_study.Shutdown.Groups.{Task, start_next, end_at, finish}
use go_study.Shutdown.Flags.{
  some-map, some-if, IsRejecting, IsSeen, IsRefusing, all-IsRefusing, server-IsRefusing,
  see_at-IsRefusing, reject_at-IsRefusing,
}
use go_study.Shutdown.Steps.{
  ServeMux, Server, Answer, refused, answered, App, Phase, starting, serving, rejecting, waiting,
  closing, calling_back, releasing, returned, State, Event, main, signal, watcher, timeout,
  listen_ends, stop_returns, callback_returns, sees, request, start, reject_at, see_at, go_to,
  start_listener, reject_next, is_starting, signalled, main_step, close_next, call_next, serve_at,
  serve_http, exit_if, happen, run,
}
use go_study.Shutdown.Phases.{Holds, close_next-cases, call_next-cases}
use go_study.Shutdown.Order.{step-cases, run-cases, run-IsOrderly, start-IsOrderly}

-- The phases behind the loop that makes the servers refuse.
abbrev pub IsPast : Phase → Type 0
IsPast starting = ⊥
IsPast serving = ⊥
IsPast (rejecting i) = ⊥
IsPast _ = Unit

abbrev pub IsRefused : {Resp : Type 0} → Answer Resp → Type 0
IsRefused a = a ≡ refused

-- What a step does when all servers are seen to refuse: they go on refusing.
record Refuses {M C Resp : Type 0} (s after : State M C Resp) : Type 0 where
  refusing : All IsRefusing after.app.servers
  new : List (Answer Resp)
  answers : after.answers ≡ new ++ s.answers
  all : All IsRefused new

All-append :
    {Resp : Type 0} (xs ys : List (Answer Resp))
    → All IsRefused xs
    → All IsRefused ys
    → All IsRefused (xs ++ ys)
All-append [] ys h k = k
All-append (x ∷ xs) ys (h, hs) k = (h, All-append xs ys hs k)

past-all :
    {M : Type 0} (p : Phase) (srvs : List (Server M)) (stops calls : List Task)
    → IsPast p
    → Holds p srvs stops calls
    → All IsRejecting srvs
past-all starting srvs stops calls r h = absurd r
past-all serving srvs stops calls r h = absurd r
past-all (rejecting i) srvs stops calls r h = absurd r
past-all waiting srvs stops calls r h = h.0
past-all closing srvs stops calls r h = h.0
past-all calling_back srvs stops calls r h = h.0
past-all releasing srvs stops calls r h = h.0
past-all returned srvs stops calls r h = h.0

module _ {M C Resp : Type 0} where
  quiet :
      (s after : State M C Resp)
      → All IsRefusing after.app.servers
      → after.answers ≡ s.answers
      → Refuses s after
  quiet s after refusing answers = record {
    refusing = refusing;
    new = [];
    answers = answers;
    all = tt;
  }

  close_next-Refuses :
      (s after : State M C Resp)
      → All IsRefusing s.app.servers
      → close_next s ≡ some after
      → Refuses s after
  close_next-Refuses s after all e = elim (close_next-cases s after e) [
    | inl (g, spawned, same) ↦ subst (Refuses s) same (quiet s _ all refl)
    | inr (passed, same) ↦ subst (Refuses s) same (quiet s _ all refl)
  ]

  call_next-Refuses :
      (s after : State M C Resp)
      → All IsRefusing s.app.servers
      → call_next s ≡ some after
      → Refuses s after
  call_next-Refuses s after all e = elim (call_next-cases s after e) [
    | inl (g, spawned, same) ↦ subst (Refuses s) same (quiet s _ all refl)
    | inr (passed, same) ↦ subst (Refuses s) same (quiet s _ all refl)
  ]

  start_listener-Refuses :
      (s : State M C Resp) → All IsRefusing s.app.servers → Refuses s (start_listener s)
  unfolding start_listener
  start_listener-Refuses s all =
      elim (start_next s.listeners)
        as (λ n.
          Refuses s (elim n [ none ↦ go_to serving s | some ts ↦ record s { listeners = ts } ])) [
            | none ↦ quiet s _ all refl
            | some ts ↦ quiet s _ all refl
          ]

  reject_next-Refuses :
      (i : ℕ) (s : State M C Resp) → All IsRefusing s.app.servers → Refuses s (reject_next i s)
  unfolding reject_next
  reject_next-Refuses i s all = elim (Option-cases (reject_at i s.app.servers)) [
    | inl past ↦ rw (past, reject_next) (quiet s _ all refl)
    | inr (srvs, found) ↦
        rw (found, reject_next)
          (quiet s _ (reject_at-IsRefusing i s.app.servers srvs found all) refl)
  ]

  main_step-Refuses :
      (p : Phase) (s after : State M C Resp)
      → All IsRefusing s.app.servers
      → main_step p s ≡ some after
      → Refuses s after
  unfolding main_step
  main_step-Refuses starting s after all e =
      subst (Refuses s) (some-injective _ _ e) (start_listener-Refuses s all)
  main_step-Refuses serving s after all e =
      subst (Refuses s) (some-if s.queued _ after e).1 (quiet s _ all refl)
  main_step-Refuses (rejecting i) s after all e =
      subst (Refuses s) (some-injective _ _ e) (reject_next-Refuses i s all)
  main_step-Refuses waiting s after all e =
      subst (Refuses s) (some-injective _ _ e) (quiet s _ all refl)
  main_step-Refuses closing s after all e = close_next-Refuses s after all e
  main_step-Refuses calling_back s after all e = call_next-Refuses s after all e
  main_step-Refuses releasing s after all e =
      subst (Refuses s) (some-injective _ _ e) (quiet s _ all refl)
  main_step-Refuses returned s after all e = absurd (ground (arith, e))

  signalled-Refuses :
      (b : Bool) (s : State M C Resp) → All IsRefusing s.app.servers → Refuses s (signalled b s)
  signalled-Refuses false s all = quiet s _ all refl
  signalled-Refuses true s all = quiet s _ all refl

  exit_if-Refuses :
      (b : Bool) (s after : State M C Resp)
      → All IsRefusing s.app.servers
      → exit_if b s ≡ some after
      → Refuses s after
  exit_if-Refuses b s after all e =
      subst (Refuses s) (some-if b (record s { exited = true }) after e).1 (quiet s _ all refl)

module _ {M H Req Resp : Type 0} (mux : ServeMux M H Req Resp) where
  -- A server that is seen to refuse refuses every request, however it reads the flag.
  serve_http-refused :
      (srv : Server M) (late : Bool) (req : Req)
      → IsRefusing srv
      → serve_http mux srv late req ≡ refused
  serve_http-refused srv false req (h, seen) =
      ap (λ b. if b then refused else answered (mux.serve srv.mux req)) h
  serve_http-refused srv true req (h, seen) =
      ap (λ b. if b then refused else answered (mux.serve srv.mux req)) seen

module _ {M H C Req Resp : Type 0} (mux : ServeMux M H Req Resp) where
  happen-Refuses :
      (e : Event Req) (s after : State M C Resp)
      → All IsRefusing s.app.servers
      → happen mux e s ≡ some after
      → Refuses s after
  unfolding happen
  happen-Refuses main s after all e = main_step-Refuses s.phase s after all e
  happen-Refuses signal s after all e =
      subst (Refuses s) (some-injective _ _ e) (signalled-Refuses (is_starting s.phase) s all)
  happen-Refuses watcher s after all e = elim (Bool-cases s.queued) [
    | inl queued ↦
        exit_if-Refuses s.watching s after all
          (ap (λ b. if b then exit_if s.watching s else none) (sym queued) ∙ e)
    | inr unsent ↦ absurd (ground (arith, e, unsent))
  ]
  happen-Refuses timeout s after all e = exit_if-Refuses s.watching s after all e
  happen-Refuses (listen_ends i) s after all e =
      subst (Refuses s)
        (some-map (λ ts. record s { listeners = ts }) (end_at i s.listeners) after e).2
        (quiet s _ all refl)
  happen-Refuses (stop_returns i) s after all e =
      subst (Refuses s) (some-map (λ g. record s { stops = g }) (finish i s.stops) after e).2
        (quiet s _ all refl)
  happen-Refuses (callback_returns i) s after all e =
      subst (Refuses s) (some-map (λ g. record s { calls = g }) (finish i s.calls) after e).2
        (quiet s _ all refl)
  happen-Refuses (sees i) s after all e =
      let (srvs, found, made) =
        some-map (λ l. record s { app = record s.app { servers = l } }) (see_at i s.app.servers)
          after e in
      subst (Refuses s) made (quiet s _ (see_at-IsRefusing i s.app.servers srvs found all) refl)
  happen-Refuses (request i late req) s after all e =
      elim (Option-cases (get_elem? s.app.servers i)) [
        | inl out ↦ absurd (ground (arith, e, out))
        | inr (srv, found) ↦
            let same = server-IsRefusing s.app.servers i srv all found in
            subst (Refuses s)
              (some-injective _ _ (sym (ap (λ r. serve_at mux r late req s) found) ∙ e))
              (record {
                refusing = all;
                new = serve_http mux srv late req ∷ [];
                answers = refl;
                all = (serve_http-refused mux srv late req same, tt);
              })
      ]

  refuses_on :
      (es : List (Event Req)) (s after : State M C Resp)
      → All IsRefusing s.app.servers
      → run mux es s ≡ some after
      → (new : List (Answer Resp)) × (after.answers ≡ new ++ s.answers) × All IsRefused new
  unfolding run
  refuses_on [] s after all e =
      ([], ap (λ (t : State M C Resp). t.answers) (sym (some-injective _ _ e)), tt)
  refuses_on (e ∷ es) s after all h =
      let (between, found, rest) = run-cases mux e es s after h in
      let r = happen-Refuses e s between all (step-cases mux e s between found).1 in
      let (new, answers, refused_all) = refuses_on es between after r.refusing rest in
      (
        new ++ r.new,
        answers ∙ ap (λ l. new ++ l) r.answers ∙ sym (append_assoc new r.new s.answers),
        All-append new r.new refused_all r.all,
      )

  -- When the main goroutine has left the loop that makes the servers refuse, and every server's flag
  -- has come to be seen, then whatever follows, each request that still comes is refused, to whichever
  -- server.
  pub run-IsRefused :
      (app : App M C) (es fs : List (Event Req)) (s after : State M C Resp)
      → run mux es (start app) ≡ some s
      → IsPast s.phase
      → All IsSeen s.app.servers
      → run mux fs s ≡ some after
      → (new : List (Answer Resp)) × (after.answers ≡ new ++ s.answers) × All IsRefused new
  run-IsRefused app es fs s after h past seen rest =
      let o = run-IsOrderly mux es (start app) s h (start-IsOrderly app) in
      refuses_on fs s after
        (all-IsRefusing s.app.servers
          (past-all s.phase s.app.servers s.stops.tasks s.calls.tasks past o.holds) seen)
        rest
