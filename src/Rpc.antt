-- ===== src/Rpc.antt =====
-- rpc/: the message codec, the server and the client of homework1, and the load balancers of homework2.
pub mod Message
pub mod Balance
pub mod Server
pub mod Client
