-- ===== src/Ws.antt =====
-- internal/ws: the WebSocket server, from the registry of connections up to the frames it reads.
pub mod Connections
pub mod Server
pub mod Dispatcher
pub mod Heartbeat
