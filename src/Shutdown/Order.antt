-- ===== src/Shutdown/Order.antt =====
-- advanced/graceful_shutdown: the phases of a shutdown come one after another.
use go_study.Prelude.{
  ℕ, ◌≡◌, refl, sym, ap, ◌∙◌, subst, ◌⊎◌, inl, inr, Bool, true, false, none, some, List, [], ◌∷◌,
  arith, if◌then◌else◌, length, All, Option-cases, Bool-cases, get_elem?,
}
use mathlib.Core.Option.{some-injective}
use go_study.Shutdown.Groups.{
  Group, end_at, finish, IsFinished, IsFresh, finish-IsProgress, new_group-IsFresh,
  new_group-IsCounted,
}
use go_study.Shutdown.Steps.{
  ServeMux, App, Phase, starting, serving, rejecting, waiting, closing, calling_back, releasing,
  returned, State, Event, main, signal, watcher, timeout, listen_ends, stop_returns,
  callback_returns, sees, request, is_starting, signalled, see_at, start, happen, step, run,
  serve_at, exit_if,
}
use go_study.Shutdown.Flags.{some-map, some-if, IsRejecting}
use go_study.Shutdown.Phases.{
  Holds, IsOrderly, Holds-stop, Holds-see, Holds-call, main_step-IsOrderly,
}

-- The group after an end.
finish-end_at : (i : ℕ) (g h : Group) → finish i g ≡ some h → end_at i g.tasks ≡ some h.tasks
unfolding finish
finish-end_at i g h e =
    let (ts, found, made) = some-map _ (end_at i g.tasks) h e in
    found ∙ ap (λ (k : Group). some k.tasks) made

module _ {M H C Req Resp : Type 0} (mux : ServeMux M H Req Resp) where
  exit_if-IsOrderly :
      (b : Bool) (s after : State M C Resp)
      → exit_if b s ≡ some after
      → IsOrderly s
      → IsOrderly after
  exit_if-IsOrderly b s after e o =
      subst IsOrderly (some-if b _ after e).1 (record {
        stops_counted = o.stops_counted;
        calls_counted = o.calls_counted;
        holds = o.holds;
      })

  signalled-IsOrderly : (b : Bool) (s : State M C Resp) → IsOrderly s → IsOrderly (signalled b s)
  signalled-IsOrderly false s o = record {
    stops_counted = o.stops_counted;
    calls_counted = o.calls_counted;
    holds = o.holds;
  }
  signalled-IsOrderly true s o = record {
    stops_counted = o.stops_counted;
    calls_counted = o.calls_counted;
    holds = o.holds;
  }

  pub happen-IsOrderly :
      (e : Event Req) (s after : State M C Resp)
      → happen mux e s ≡ some after
      → IsOrderly s
      → IsOrderly after
  unfolding happen
  happen-IsOrderly main s after e o = main_step-IsOrderly s.phase s after refl e o
  happen-IsOrderly signal s after e o =
      subst IsOrderly (some-injective _ _ e) (signalled-IsOrderly (is_starting s.phase) s o)
  happen-IsOrderly watcher s after e o = elim (Bool-cases s.queued) [
    | inl queued ↦
        exit_if-IsOrderly s.watching s after
          (ap (λ b. if b then exit_if s.watching s else none) (sym queued) ∙ e) o
    | inr quiet ↦ absurd (ground (arith, e, quiet))
  ]
  happen-IsOrderly timeout s after e o = exit_if-IsOrderly s.watching s after e o
  happen-IsOrderly (listen_ends i) s after e o =
      let (ts, found, made) = some-map _ (end_at i s.listeners) after e in
      subst IsOrderly made (record {
        stops_counted = o.stops_counted;
        calls_counted = o.calls_counted;
        holds = o.holds;
      })
  happen-IsOrderly (stop_returns i) s after e o =
      let (g, found, made) = some-map _ (finish i s.stops) after e in
      subst IsOrderly made (record {
        stops_counted = (finish-IsProgress i s.stops g found).0 o.stops_counted;
        calls_counted = o.calls_counted;
        holds =
            Holds-stop s.phase s.app.servers s.stops.tasks s.calls.tasks i g.tasks
              (finish-end_at i s.stops g found) o.holds;
      })
  happen-IsOrderly (callback_returns i) s after e o =
      let (g, found, made) = some-map _ (finish i s.calls) after e in
      subst IsOrderly made (record {
        stops_counted = o.stops_counted;
        calls_counted = (finish-IsProgress i s.calls g found).0 o.calls_counted;
        holds =
            Holds-call s.phase s.app.servers s.stops.tasks s.calls.tasks i g.tasks
              (finish-end_at i s.calls g found) o.holds;
      })
  happen-IsOrderly (sees i) s after e o =
      let (srvs, found, made) =
        some-map (λ l. record s { app = record s.app { servers = l } }) (see_at i s.app.servers)
          after e in
      subst IsOrderly made (record {
        stops_counted = o.stops_counted;
        calls_counted = o.calls_counted;
        holds = Holds-see s.phase s.app.servers srvs s.stops.tasks s.calls.tasks i found o.holds;
      })
  happen-IsOrderly (request i late req) s after e o =
      elim (Option-cases (get_elem? s.app.servers i)) [
        | inl out ↦ absurd (ground (arith, e, out))
        | inr (srv, found) ↦
            subst IsOrderly
              (some-injective _ _ (sym (ap (λ r. serve_at mux r late req s) found) ∙ e))
              (record {
                stops_counted = o.stops_counted;
                calls_counted = o.calls_counted;
                holds = o.holds;
              })
      ]

  pub step-cases :
      (e : Event Req) (s after : State M C Resp)
      → step mux e s ≡ some after
      → (s.exited ≡ false) × (happen mux e s ≡ some after)
  unfolding step
  step-cases e s after h = elim (Bool-cases s.exited) [
    | inl gone ↦ absurd (ground (arith, h, gone))
    | inr alive ↦ (alive, ap (λ b. if b then none else happen mux e s) (sym alive) ∙ h)
  ]

  pub run-cases :
      (e : Event Req) (es : List (Event Req)) (s after : State M C Resp)
      → run mux (e ∷ es) s ≡ some after
      → (between : State M C Resp) × (step mux e s ≡ some between)
        × (run mux es between ≡ some after)
  unfolding run
  run-cases e es s after h = elim (Option-cases (step mux e s)) [
    | inl stuck ↦ absurd (ground (arith, h, stuck))
    | inr (between, found) ↦
        (between, found, ap (λ o. elim o [ none ↦ none | some s' ↦ run mux es s' ]) (sym found) ∙ h)
  ]

  pub step-IsOrderly :
      (e : Event Req) (s after : State M C Resp)
      → step mux e s ≡ some after
      → IsOrderly s
      → IsOrderly after
  step-IsOrderly e s after h o = happen-IsOrderly e s after (step-cases e s after h).1 o

  pub run-IsOrderly :
      (es : List (Event Req)) (s after : State M C Resp)
      → run mux es s ≡ some after
      → IsOrderly s
      → IsOrderly after
  unfolding run
  run-IsOrderly [] s after h o = subst IsOrderly (some-injective _ _ h) o
  run-IsOrderly (e ∷ es) s after h o =
      let (between, found, rest) = run-cases e es s after h in
      run-IsOrderly es between after rest (step-IsOrderly e s between found o)

pub start-IsOrderly : {M C Resp : Type 0} (app : App M C) → IsOrderly (start {Resp = Resp} app)
start-IsOrderly app = record {
  stops_counted = new_group-IsCounted (length app.servers);
  calls_counted = new_group-IsCounted (length app.cbs);
  holds = (new_group-IsFresh (length app.servers), new_group-IsFresh (length app.cbs));
}

abbrev pub IsReleased : Phase → Type 0
IsReleased releasing = Unit
IsReleased returned = Unit
IsReleased _ = ⊥

-- The order of a shutdown.
pub record IsOrdered {M C Resp : Type 0} (s : State M C Resp) : Type 0 where
  pub stopped_behind : All IsFresh s.stops.tasks ⊎ All IsRejecting s.app.servers
  pub called_behind : All IsFresh s.calls.tasks ⊎ All IsFinished s.stops.tasks
  pub released_behind : IsReleased s.phase → All IsFinished s.calls.tasks

ordered_in :
    {M C Resp : Type 0} (p : Phase) (s : State M C Resp)
    → Holds p s.app.servers s.stops.tasks s.calls.tasks
    → (All IsFresh s.stops.tasks ⊎ All IsRejecting s.app.servers)
      × (All IsFresh s.calls.tasks ⊎ All IsFinished s.stops.tasks)
      × (IsReleased p → All IsFinished s.calls.tasks)
ordered_in starting s (stops, calls) = (inl stops, inl calls, λ r. absurd r)
ordered_in serving s (stops, calls) = (inl stops, inl calls, λ r. absurd r)
ordered_in (rejecting i) s (first, stops, calls) = (inl stops, inl calls, λ r. absurd r)
ordered_in waiting s (reject, stops, calls) = (inr reject, inl calls, λ r. absurd r)
ordered_in closing s (reject, calls) = (inr reject, inl calls, λ r. absurd r)
ordered_in calling_back s (reject, stops) = (inr reject, inr stops, λ r. absurd r)
ordered_in releasing s (reject, stops, calls) = (inr reject, inr stops, λ r. calls)
ordered_in returned s (reject, stops, calls) = (inr reject, inr stops, λ r. calls)

module _ {M H C Req Resp : Type 0} (mux : ServeMux M H Req Resp) where
  -- Whatever signals, requests and steps of goroutines come, in any order: when the stopping of a
  -- server has begun, all servers have been told to refuse new requests; when a callback has begun, every server has
  -- been stopped; and when the resources are released, every callback has returned.
  pub run-IsOrdered :
      (app : App M C) (es : List (Event Req)) (s : State M C Resp)
      → run mux es (start app) ≡ some s
      → IsOrdered s
  run-IsOrdered app es s h =
      let (stops, calls, released) =
        ordered_in s.phase s (run-IsOrderly mux es (start app) s h (start-IsOrderly app)).holds in
      record { stopped_behind = stops; called_behind = calls; released_behind = released }
