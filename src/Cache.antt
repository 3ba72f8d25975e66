-- ===== src/Cache.antt =====
-- cache/: the lock of homework2 on a Redis server.
pub mod Lock
