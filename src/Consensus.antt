-- ===== src/Consensus.antt =====
-- pkg/consensus: the replicated log and the state machine behind it.
pub mod Node
pub mod Command
pub mod Apply
pub mod Rpc
pub mod Leader
pub mod Events
pub mod Wait
pub mod Vote
pub mod Follow
pub mod Terms
pub mod Log
pub mod Sound
pub mod Quorum
pub mod Tests
mod LeaderTests
pub mod Replicate
pub mod Bootstrap
pub mod Fsm
pub mod Membership
