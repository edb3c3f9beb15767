-- ===== src/Websocket.antt =====
-- backend/internal/websocket/hub.go: the hub that sends download progress to the connected clients.
-- Hub has its state and the three cases of Run, Deliver and Safety proofs.
pub mod Hub
pub mod Deliver
pub mod Safety
mod Tests
