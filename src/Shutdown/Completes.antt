-- ===== src/Shutdown/Completes.antt =====
-- advanced/graceful_shutdown: a shutdown that has begun can come to its end.
use go_study.Prelude.{
  ℕ, zero, suc, ◌+◌, ◌-◌, ◌≤◌, ◌<◌, ◌≡◌, refl, sym, ap, ◌∙◌, subst, ◌⊎◌, inl, inr, false, none,
  some, List, [], ◌∷◌, arith, if◌then◌else◌, length, All, Option-cases, Bool-cases,
}
use mathlib.Core.Option.{some-injective}
use go_study.Shutdown.Groups.{
  pass, work, spawn-IsProgress, finish-IsProgress, pass-goes_on, pass-spawn,
}
use go_study.Shutdown.Steps.{
  ServeMux, Server, App, Phase, starting, serving, rejecting, waiting, closing, calling_back,
  releasing, returned, State, Event, main, stop_returns, callback_returns, reject_at, start, go_to,
  reject_next, close_next, call_next, main_step, happen, step, run,
}
use go_study.Shutdown.Flags.{some-map}
use go_study.Shutdown.Phases.{IsOrderly}
use go_study.Shutdown.Order.{happen-IsOrderly, run-IsOrderly, start-IsOrderly}

-- A shutdown has begun with the first signal.
abbrev pub IsBegun : Phase → Type 0
IsBegun starting = ⊥
IsBegun serving = ⊥
IsBegun _ = Unit

-- The steps of the main goroutine, and the returns that it waits for.
abbrev pub IsOwn : {Req : Type 0} → Event Req → Type 0
IsOwn main = Unit
IsOwn (stop_returns i) = Unit
IsOwn (callback_returns i) = Unit
IsOwn _ = ⊥

abbrev pub phases_left : Phase → ℕ → ℕ
phases_left starting n = 6 + n
phases_left serving n = 6 + n
phases_left (rejecting i) n = 5 + (n - i)
phases_left waiting n = 4
phases_left closing n = 3
phases_left calling_back n = 2
phases_left releasing n = 1
phases_left returned n = 0

-- How many steps are left at most.
abbrev pub todo : {M C Resp : Type 0} → State M C Resp → ℕ
todo s = phases_left s.phase (length s.app.servers) + work s.stops.tasks + work s.calls.tasks

reject_at-length :
    {M : Type 0} (i : ℕ) (srvs after : List (Server M))
    → reject_at i srvs ≡ some after
    → (length after ≡ length srvs) × (i < length srvs)
unfolding reject_at
reject_at-length i [] after e = absurd (ground (arith, e))
reject_at-length zero (srv ∷ srvs) after e = (ap length (sym (some-injective _ _ e)), omega arith)
reject_at-length (suc i) (srv ∷ srvs) after e =
    let (rest, found, made) = some-map (λ rest. srv ∷ rest) (reject_at i srvs) after e in
    let (len, inside) = reject_at-length i srvs rest found in
    (ap length (sym made) ∙ ap suc len, omega (arith, inside))

module _ {M H C Req Resp : Type 0} (mux : ServeMux M H Req Resp) where
  -- A step nearer to the end.
  record Nearer (s : State M C Resp) : Type 0 where
    event : Event Req
    after : State M C Resp
    own : IsOwn event
    steps : happen mux event s ≡ some after
    begun : IsBegun after.phase
    alive : after.exited ≡ s.exited
    less : todo after < todo s

  by_main :
      (s after : State M C Resp)
      → main_step s.phase s ≡ some after
      → IsBegun after.phase
      → after.exited ≡ s.exited
      → todo after < todo s
      → Nearer s
  unfolding happen
  by_main s after steps begun alive less = record {
    event = main;
    after = after;
    own = tt;
    steps = steps;
    begun = begun;
    alive = alive;
    less = less;
  }

  nearer :
      (p : Phase) (s : State M C Resp)
      → s.phase ≡ p
      → IsBegun p
      → IsOrderly s
      → (p ≡ returned) ⊎ Nearer s
  unfolding main_step reject_next close_next call_next happen
  nearer starting s at begun o = absurd begun
  nearer serving s at begun o = absurd begun
  nearer (rejecting i) s at begun o = elim (Option-cases (reject_at i s.app.servers)) [
    | inl past ↦ inr (
        by_main s (go_to waiting s) (rw (at, main_step) (rw (past, reject_next) refl)) tt refl
          (rw at (omega arith)))
    | inr (srvs, found) ↦
        let (len, inside) = reject_at-length i s.app.servers srvs found in
        inr (
          by_main s (record s { app = record s.app { servers = srvs }; phase = rejecting (suc i) })
            (rw (at, main_step) (rw (found, reject_next) refl)) tt refl
            (rw at (omega (arith, len, inside))))
  ]
  nearer waiting s at begun o =
      inr (by_main s (go_to closing s) (rw (at, main_step) refl) tt refl (rw at (omega arith)))
  nearer closing s at begun o = elim (Bool-cases (pass s.stops)) [
    | inl passed ↦ inr (
        by_main s (go_to calling_back s)
          (rw (at, main_step) (rw (pass-spawn s.stops passed, close_next) (rw passed refl))) tt refl
          (rw at (omega arith)))
    | inr waits ↦ elim (pass-goes_on s.stops o.stops_counted waits) [
      | inl (g, spawned) ↦ inr (
          by_main s (record s { stops = g }) (rw (at, main_step) (rw (spawned, close_next) refl))
            (subst IsBegun (sym at) tt) refl
            (omega (arith, (spawn-IsProgress s.stops g spawned).1)))
      | inr (i, g, ended) ↦ inr (record {
        event = stop_returns i;
        after = record s { stops = g };
        own = tt;
        steps = rw (ended, happen) refl;
        begun = subst IsBegun (sym at) tt;
        alive = refl;
        less = omega (arith, (finish-IsProgress i s.stops g ended).1);
      })
    ]
  ]
  nearer calling_back s at begun o = elim (Bool-cases (pass s.calls)) [
    | inl passed ↦ inr (
        by_main s (go_to releasing s)
          (rw (at, main_step) (rw (pass-spawn s.calls passed, call_next) (rw passed refl))) tt refl
          (rw at (omega arith)))
    | inr waits ↦ elim (pass-goes_on s.calls o.calls_counted waits) [
      | inl (g, spawned) ↦ inr (
          by_main s (record s { calls = g }) (rw (at, main_step) (rw (spawned, call_next) refl))
            (subst IsBegun (sym at) tt) refl
            (omega (arith, (spawn-IsProgress s.calls g spawned).1)))
      | inr (i, g, ended) ↦ inr (record {
        event = callback_returns i;
        after = record s { calls = g };
        own = tt;
        steps = rw (ended, happen) refl;
        begun = subst IsBegun (sym at) tt;
        alive = refl;
        less = omega (arith, (finish-IsProgress i s.calls g ended).1);
      })
    ]
  ]
  nearer releasing s at begun o =
      inr (by_main s (go_to returned s) (rw (at, main_step) refl) tt refl (rw at (omega arith)))
  nearer returned s at begun o = inl refl

  run-step :
      (e : Event Req) (es : List (Event Req)) (s between after : State M C Resp)
      → s.exited ≡ false
      → happen mux e s ≡ some between
      → run mux es between ≡ some after
      → run mux (e ∷ es) s ≡ some after
  unfolding run step
  run-step e es s between after alive steps rest =
      ap (λ b. elim (if b then none else happen mux e s) [ none ↦ none | some t ↦ run mux es t ])
        alive
      ∙ ap (λ o. elim o [ none ↦ none | some t ↦ run mux es t ]) steps
      ∙ rest

  -- A way to the end.
  abbrev pub Completes : State M C Resp → Type 0
  Completes s =
      (fs : List (Event Req)) × (after : State M C Resp) × (run mux fs s ≡ some after)
      × (after.phase ≡ returned)
      × All IsOwn fs
      × (length fs ≤ todo s)

  completes :
      (fuel : ℕ) (s : State M C Resp)
      → todo s ≤ fuel
      → IsBegun s.phase
      → s.exited ≡ false
      → IsOrderly s
      → Completes s
  unfolding run
  completes zero s few begun alive o = elim (nearer s.phase s refl begun o) [
    | inl done ↦ ([], s, refl, done, tt, omega arith)
    | inr n ↦ absurd (omega (arith, few, n.less))
  ]
  completes (suc fuel) s few begun alive o = elim (nearer s.phase s refl begun o) [
    | inl done ↦ ([], s, refl, done, tt, omega arith)
    | inr n ↦
        let (fs, after, ran, done, own, short) =
          completes fuel n.after (omega (arith, few, n.less)) n.begun (n.alive ∙ alive)
            (happen-IsOrderly mux n.event s n.after n.steps o) in
        (
          n.event ∷ fs,
          after,
          run-step n.event fs s n.after after alive n.steps ran,
          done,
          (n.own, own),
          omega (arith, n.less, short),
        )
  ]

  -- From every state after the first signal, as long as the program has not been ended, steps of the
  -- main goroutine and returns of Shutdown and of callbacks, of a bounded number, lead to the end of
  -- StartAndServe.
  pub run-Completes :
      (app : App M C) (es : List (Event Req)) (s : State M C Resp)
      → run mux es (start app) ≡ some s
      → IsBegun s.phase
      → s.exited ≡ false
      → Completes s
  run-Completes app es s h begun alive =
      completes (todo s) s (omega arith) begun alive
        (run-IsOrderly mux es (start app) s h (start-IsOrderly app))
