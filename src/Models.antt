-- ===== src/Models.antt =====
-- pkg/models: the domino rules. Data and operations stand in the modules of the first group, what is
-- proved of them in the second.
pub mod Tile
pub mod Session
pub mod Deck
pub mod Evaluate
pub mod Play
pub mod Turn
pub mod View
pub mod Board
pub mod Conserve
pub mod Winner
pub mod Rotation
pub mod Ending
mod Tests
