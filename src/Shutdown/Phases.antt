-- ===== src/Shutdown/Phases.antt =====
-- advanced/graceful_shutdown: what holds in each phase of StartAndServe, and the steps of its goroutine.
use go_study.Prelude.{
  ℕ, ◌≡◌, refl, sym, ◌∙◌, subst, ◌⊎◌, inl, inr, true, none, some, List, arith, if◌then◌else◌, All,
  Option-cases,
}
use mathlib.Core.Option.{some-injective}
use go_study.Shutdown.Groups.{
  Task, Group, start_next, end_at, spawn, pass, IsFinished, IsFresh, IsCounted, spawn-IsProgress,
  pass-IsFinished, fresh-end_at, finished-end_at,
}
use go_study.Shutdown.Flags.{
  some-if, IsRejecting, FirstReject, reject_at-FirstReject, reject_at_past, see_at-FirstReject,
  see_at-IsRejecting,
}
use go_study.Shutdown.Steps.{
  Server, Phase, starting, serving, rejecting, waiting, closing, calling_back, releasing, returned,
  State, reject_at, see_at, go_to, reject_next, close_next, call_next, start_listener, main_step,
}

-- What holds of the servers, of the goroutines that stop them and of those of the callbacks.
abbrev pub Holds : {M : Type 0} → Phase → List (Server M) → List Task → List Task → Type 0
Holds starting srvs stops calls = All IsFresh stops × All IsFresh calls
Holds serving srvs stops calls = All IsFresh stops × All IsFresh calls
Holds (rejecting i) srvs stops calls = FirstReject i srvs × All IsFresh stops × All IsFresh calls
Holds waiting srvs stops calls = All IsRejecting srvs × All IsFresh stops × All IsFresh calls
Holds closing srvs stops calls = All IsRejecting srvs × All IsFresh calls
Holds calling_back srvs stops calls = All IsRejecting srvs × All IsFinished stops
Holds releasing srvs stops calls =
    All IsRejecting srvs × All IsFinished stops × All IsFinished calls
Holds returned srvs stops calls = All IsRejecting srvs × All IsFinished stops × All IsFinished calls

pub record IsOrderly {M C Resp : Type 0} (s : State M C Resp) : Type 0 where
  pub stops_counted : IsCounted s.stops
  pub calls_counted : IsCounted s.calls
  pub holds : Holds s.phase s.app.servers s.stops.tasks s.calls.tasks

pub Holds-stop :
    {M : Type 0} (p : Phase) (srvs : List (Server M)) (stops calls : List Task) (i : ℕ)
    (after : List Task)
    → end_at i stops ≡ some after
    → Holds p srvs stops calls
    → Holds p srvs after calls
Holds-stop starting srvs stops calls i after e h = absurd (fresh-end_at i stops after h.0 e)
Holds-stop serving srvs stops calls i after e h = absurd (fresh-end_at i stops after h.0 e)
Holds-stop (rejecting j) srvs stops calls i after e h = absurd (fresh-end_at i stops after h.1 e)
Holds-stop waiting srvs stops calls i after e h = absurd (fresh-end_at i stops after h.1 e)
Holds-stop closing srvs stops calls i after e h = h
Holds-stop calling_back srvs stops calls i after e h = absurd (finished-end_at i stops after h.1 e)
Holds-stop releasing srvs stops calls i after e h = absurd (finished-end_at i stops after h.1 e)
Holds-stop returned srvs stops calls i after e h = absurd (finished-end_at i stops after h.1 e)

pub Holds-see :
    {M : Type 0} (p : Phase) (srvs after : List (Server M)) (stops calls : List Task) (i : ℕ)
    → see_at i srvs ≡ some after
    → Holds p srvs stops calls
    → Holds p after stops calls
Holds-see starting srvs after stops calls i e h = h
Holds-see serving srvs after stops calls i e h = h
Holds-see (rejecting j) srvs after stops calls i e h =
    (see_at-FirstReject j i srvs after e h.0, h.1, h.2)
Holds-see waiting srvs after stops calls i e h = (see_at-IsRejecting i srvs after e h.0, h.1, h.2)
Holds-see closing srvs after stops calls i e (h, rest) = (see_at-IsRejecting i srvs after e h, rest)
Holds-see calling_back srvs after stops calls i e (h, rest) =
    (see_at-IsRejecting i srvs after e h, rest)
Holds-see releasing srvs after stops calls i e h = (see_at-IsRejecting i srvs after e h.0, h.1, h.2)
Holds-see returned srvs after stops calls i e h = (see_at-IsRejecting i srvs after e h.0, h.1, h.2)

pub Holds-call :
    {M : Type 0} (p : Phase) (srvs : List (Server M)) (stops calls : List Task) (i : ℕ)
    (after : List Task)
    → end_at i calls ≡ some after
    → Holds p srvs stops calls
    → Holds p srvs stops after
Holds-call starting srvs stops calls i after e h = absurd (fresh-end_at i calls after h.1 e)
Holds-call serving srvs stops calls i after e h = absurd (fresh-end_at i calls after h.1 e)
Holds-call (rejecting j) srvs stops calls i after e h = absurd (fresh-end_at i calls after h.2 e)
Holds-call waiting srvs stops calls i after e h = absurd (fresh-end_at i calls after h.2 e)
Holds-call closing srvs stops calls i after e h = absurd (fresh-end_at i calls after h.1 e)
Holds-call calling_back srvs stops calls i after e h = h
Holds-call releasing srvs stops calls i after e h = absurd (finished-end_at i calls after h.2 e)
Holds-call returned srvs stops calls i after e h = absurd (finished-end_at i calls after h.2 e)

module _ {M C Resp : Type 0} where
  -- A step that leaves the phase, the servers and the groups' tasks as they are, or moves as said.
  moved :
      (p : Phase) (s : State M C Resp)
      → IsOrderly s
      → Holds p s.app.servers s.stops.tasks s.calls.tasks
      → IsOrderly (go_to p s)
  moved p s o h = record {
    stops_counted = o.stops_counted;
    calls_counted = o.calls_counted;
    holds = h;
  }

  -- What holds in a phase.
  pub phase-Holds :
      (p : Phase) (s : State M C Resp)
      → s.phase ≡ p
      → IsOrderly s
      → Holds p s.app.servers s.stops.tasks s.calls.tasks
  phase-Holds p s at o = subst (λ q. Holds q s.app.servers s.stops.tasks s.calls.tasks) at o.holds

  start_listener-IsOrderly :
      (s : State M C Resp) → s.phase ≡ starting → IsOrderly s → IsOrderly (start_listener s)
  unfolding start_listener
  start_listener-IsOrderly s at o =
      elim (start_next s.listeners)
        as (λ n.
          IsOrderly (elim n [ none ↦ go_to serving s | some ts ↦ record s { listeners = ts } ])) [
            | none ↦ moved serving s o (phase-Holds starting s at o)
            | some ts ↦ record {
              stops_counted = o.stops_counted;
              calls_counted = o.calls_counted;
              holds = o.holds;
            }
          ]

  reject_next-IsOrderly :
      (i : ℕ) (s : State M C Resp)
      → s.phase ≡ rejecting i
      → IsOrderly s
      → IsOrderly (reject_next i s)
  unfolding reject_next
  reject_next-IsOrderly i s at o =
      let (first, stops, calls) = phase-Holds (rejecting i) s at o in
      elim (Option-cases (reject_at i s.app.servers)) [
        | inl past ↦
            rw (past, reject_next)
              (moved waiting s o (reject_at_past i s.app.servers first past, stops, calls))
        | inr (srvs, found) ↦
            rw (found, reject_next)
              (record {
                stops_counted = o.stops_counted;
                calls_counted = o.calls_counted;
                holds = (reject_at-FirstReject i s.app.servers srvs first found, stops, calls);
              })
      ]

  -- The two ways in which a phase with goroutines goes on.
  pub close_next-cases :
      (s after : State M C Resp)
      → close_next s ≡ some after
      → ((g : Group) × (spawn s.stops ≡ some g) × (record s { stops = g } ≡ after))
        ⊎ ((pass s.stops ≡ true) × (go_to calling_back s ≡ after))
  unfolding close_next
  close_next-cases s after e = elim (Option-cases (spawn s.stops)) [
    | inr (g, found) ↦
        let made : close_next s ≡ some (record s { stops = g }) = rw (found, close_next) refl in
        inl (g, found, some-injective _ _ (sym made ∙ e))
    | inl begun ↦
        let made : close_next s ≡ (if pass s.stops then some (go_to calling_back s) else none) =
          rw (begun, close_next) refl in
        inr (some-if (pass s.stops) (go_to calling_back s) after (sym made ∙ e))
  ]

  pub call_next-cases :
      (s after : State M C Resp)
      → call_next s ≡ some after
      → ((g : Group) × (spawn s.calls ≡ some g) × (record s { calls = g } ≡ after))
        ⊎ ((pass s.calls ≡ true) × (go_to releasing s ≡ after))
  unfolding call_next
  call_next-cases s after e = elim (Option-cases (spawn s.calls)) [
    | inr (g, found) ↦
        let made : call_next s ≡ some (record s { calls = g }) = rw (found, call_next) refl in
        inl (g, found, some-injective _ _ (sym made ∙ e))
    | inl begun ↦
        let made : call_next s ≡ (if pass s.calls then some (go_to releasing s) else none) =
          rw (begun, call_next) refl in
        inr (some-if (pass s.calls) (go_to releasing s) after (sym made ∙ e))
  ]

  close_next-IsOrderly :
      (s after : State M C Resp)
      → s.phase ≡ closing
      → close_next s ≡ some after
      → IsOrderly s
      → IsOrderly after
  close_next-IsOrderly s after at e o =
      let (reject, calls) = phase-Holds closing s at o in
      elim (close_next-cases s after e) [
        | inl (g, found, same) ↦ subst IsOrderly same (record {
          stops_counted = (spawn-IsProgress s.stops g found).0 o.stops_counted;
          calls_counted = o.calls_counted;
          holds = subst (λ q. Holds q s.app.servers g.tasks s.calls.tasks) (sym at) (reject, calls);
        })
        | inr (passed, same) ↦
            subst IsOrderly same
              (moved calling_back s o (reject, pass-IsFinished s.stops o.stops_counted passed))
      ]

  call_next-IsOrderly :
      (s after : State M C Resp)
      → s.phase ≡ calling_back
      → call_next s ≡ some after
      → IsOrderly s
      → IsOrderly after
  call_next-IsOrderly s after at e o =
      let (reject, stops) = phase-Holds calling_back s at o in
      elim (call_next-cases s after e) [
        | inl (g, found, same) ↦ subst IsOrderly same (record {
          stops_counted = o.stops_counted;
          calls_counted = (spawn-IsProgress s.calls g found).0 o.calls_counted;
          holds = subst (λ q. Holds q s.app.servers s.stops.tasks g.tasks) (sym at) (reject, stops);
        })
        | inr (passed, same) ↦
            subst IsOrderly same
              (moved releasing s o (reject, stops, pass-IsFinished s.calls o.calls_counted passed))
      ]

  pub main_step-IsOrderly :
      (p : Phase) (s after : State M C Resp)
      → s.phase ≡ p
      → main_step p s ≡ some after
      → IsOrderly s
      → IsOrderly after
  unfolding main_step
  main_step-IsOrderly starting s after at e o =
      subst IsOrderly (some-injective _ _ e) (start_listener-IsOrderly s at o)
  main_step-IsOrderly serving s after at e o =
      let (taken, same) = some-if s.queued _ after e in
      let (stops, calls) = phase-Holds serving s at o in
      subst IsOrderly same (record {
        stops_counted = o.stops_counted;
        calls_counted = o.calls_counted;
        holds = (tt, stops, calls);
      })
  main_step-IsOrderly (rejecting i) s after at e o =
      subst IsOrderly (some-injective _ _ e) (reject_next-IsOrderly i s at o)
  main_step-IsOrderly waiting s after at e o =
      let (reject, stops, calls) = phase-Holds waiting s at o in
      subst IsOrderly (some-injective _ _ e) (moved closing s o (reject, calls))
  main_step-IsOrderly closing s after at e o = close_next-IsOrderly s after at e o
  main_step-IsOrderly calling_back s after at e o = call_next-IsOrderly s after at e o
  main_step-IsOrderly releasing s after at e o =
      subst IsOrderly (some-injective _ _ e) (moved returned s o (phase-Holds releasing s at o))
  main_step-IsOrderly returned s after at e o = absurd (ground (arith, e))
