-- ===== src/Ws.antt =====
-- pkg/ws: the hub of the WebSocket connections: who is connected, what waits for whom, and who has left.
pub mod Nested
pub mod Hub
pub mod Loop
pub mod Terminate
pub mod Happen
pub mod Tidy
pub mod Send
pub mod SendEnd
pub mod Receive
pub mod Seats
pub mod Run
pub mod Router
pub mod Actor
mod Tests
mod RouterTests
