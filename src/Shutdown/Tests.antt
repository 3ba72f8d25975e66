-- ===== src/Shutdown/Tests.antt =====
-- Runs of advanced/graceful_shutdown with two servers and a callback.
use go_study.Prelude.{
  ℕ, ◌≡◌, refl, ◌++◌, true, false, Option, none, some, List, [], ◌∷◌, Bytes, bytes, All,
}
use go_study.Shutdown.Steps.{
  ServeMux, Server, Answer, refused, answered, App, returned, State, Event, main, signal, watcher,
  stop_returns, callback_returns, sees, request, new_server, handle, with_shutdown_callbacks,
  new_app, start, run,
}
use go_study.Shutdown.Rejects.{IsRefused, run-IsRefused}
use go_study.Shutdown.Order.{IsOrdered, run-IsOrdered}
use go_study.Shutdown.Completes.{Completes, run-Completes}

-- A multiplexer is the text that its handler writes.
abbrev mux : ServeMux Bytes Bytes Bytes Bytes
mux = record { new = []; handle = λ pattern h m. some h; serve = λ m req. m }

abbrev hello : Bytes
hello = bytes "hello"

abbrev business : Server Bytes
business = record (new_server mux (bytes "business") (bytes "localhost:8080")) { mux = hello }

business_made :
    handle mux (bytes "/") hello (new_server mux (bytes "business") (bytes "localhost:8080"))
    ≡ some business
unfolding handle
business_made = refl

abbrev app : App Bytes ℕ
app =
    new_app (business ∷ new_server mux (bytes "admin") (bytes "localhost:8081") ∷ [])
      (with_shutdown_callbacks (7 ∷ []) ∷ [])

-- Both servers are started; a request comes, then the signal, and both servers refuse; a
-- request right behind it still reads the flag as it was.
abbrev until_waiting : List (Event Bytes)
until_waiting =
    main
    ∷ main
    ∷ main
    ∷ request 0 false (bytes "/")
    ∷ signal
    ∷ main
    ∷ main
    ∷ request 0 true (bytes "/")
    ∷ request 0 false (bytes "/")
    ∷ main
    ∷ main
    ∷ sees 0
    ∷ sees 1
    ∷ []

abbrev until_end : List (Event Bytes)
until_end =
    request 1 true (bytes "/")
    ∷ main
    ∷ main
    ∷ stop_returns 0
    ∷ main
    ∷ request 0 false (bytes "/")
    ∷ stop_returns 1
    ∷ main
    ∷ main
    ∷ callback_returns 0
    ∷ main
    ∷ main
    ∷ []

abbrev after_run : Option (State Bytes ℕ Bytes) → State Bytes ℕ Bytes
after_run none = start app
after_run (some s) = s

abbrev at_waiting : State Bytes ℕ Bytes
at_waiting = after_run (run mux until_waiting (start app))

abbrev at_end : State Bytes ℕ Bytes
at_end = after_run (run mux (until_waiting ++ until_end) (start app))

answers_at_end :
    (at_end.answers ≡ refused ∷ refused ∷ refused ∷ answered hello ∷ answered hello ∷ [])
    × (at_end.phase ≡ returned)
unfolding run
answers_at_end = (refl, refl)

-- A signal before signal.Notify ends the program.
exits_at_start : (after_run (run mux (main ∷ signal ∷ []) (start app))).exited ≡ true
unfolding run
exits_at_start = refl

-- A second signal ends the program.
exits_on_signal :
    (after_run (run mux (until_waiting ++ (signal ∷ watcher ∷ [])) (start app))).exited ≡ true
unfolding run
exits_on_signal = refl

run-IsRefused_example :
    (new : List (Answer Bytes)) × (at_end.answers ≡ new ++ at_waiting.answers) × All IsRefused new
unfolding run
run-IsRefused_example =
    run-IsRefused mux app until_waiting until_end at_waiting at_end refl tt (refl, (refl, tt)) refl

run-IsOrdered_example : IsOrdered at_end
unfolding run
run-IsOrdered_example = run-IsOrdered mux app (until_waiting ++ until_end) at_end refl

run-Completes_example : Completes mux at_waiting
unfolding run
run-Completes_example = run-Completes mux app until_waiting at_waiting refl tt refl
