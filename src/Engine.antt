-- ===== src/Engine.antt =====
-- pkg/engine and pkg/game/loop.go: the manager of the sessions in memory, what it stores and publishes for
-- a turn, and the state machine of pkg/consensus/fsm.go that runs committed commands through it.
pub mod Loop
pub mod Manager
pub mod Lifecycle
pub mod Replicated
pub mod Fsm
pub mod Settle
pub mod Frame
pub mod StartFrame
pub mod LogTurns
pub mod Committed
pub mod Ended
pub mod Moves
pub mod Announced
pub mod Lost
pub mod Valid
mod Tests
