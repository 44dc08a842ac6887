-- ===== src/Gateway.antt =====
-- pkg/gateway: the match gateway over HTTP, and the actions of the WebSocket router as proposals.
pub mod SessionCache
pub mod Cluster
pub mod Replicated
pub mod Carried
pub mod Own
pub mod Secret
pub mod Once
pub mod Reply
pub mod Handle
pub mod Mutate
pub mod Create
pub mod Read
pub mod Fill
pub mod Node
pub mod FreshRead
pub mod Deltas
pub mod HiddenDelta
mod OwnTests
mod DeltaTests
mod Tests
