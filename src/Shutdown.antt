-- ===== src/Shutdown.antt =====
-- advanced/graceful_shutdown/service/shutdown.go, and shutdown_answer.go, which does the same.
-- The program's goroutines are the main one, one that waits for a second signal, and one for each
-- server that is stopped and each callback that runs. Their steps, the requests and the signals come
-- in any order: an event is a step of one of them, and it may be impossible.
-- http.Server, the multiplexer behind a server and the callbacks are not modelled: a request may come
-- at any time, and when Shutdown or a callback returns is an event. Durations are numbers of seconds.
pub mod Groups
pub mod Steps
pub mod Rejects
pub mod Flags
pub mod Phases
pub mod Order
pub mod Completes
mod Tests
