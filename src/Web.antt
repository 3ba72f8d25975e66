-- ===== src/Web.antt =====
-- web/: the routers of homework1 and homework2, and the server of homework2.
pub mod Router
pub mod Server
pub mod RegexRouter
