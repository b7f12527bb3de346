-- ===== src/Net.antt =====
-- src/net: the outgoing queue of a websocket session and the reads and writes that the session
-- starts; and the pipeline of an HTTP session.
pub mod WebsocketQueue
pub mod QueuedSession
pub mod HttpSession
