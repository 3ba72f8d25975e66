-- ===== src/Rpc/Balance.antt =====
-- rpc/homework2/loadbalance: the pickers. `C` stands for gRPC's connections, `D` for its addresses,
-- `I` for what a pick is told. ErrNoSubConnAvailable is `none`. A pick holds its lock from the first
-- read to the last write, or adds to its counter atomically, so picks come one after the other.
-- The ready connections, a Go map, come in the order in which `range` hands them out.
pub mod RoundRobin
pub mod Weighted
pub mod LeastActive
pub mod Fastest
mod Tests
