-- ===== src/Peer.antt =====
-- Peer connections, native/src/lumenrtc_impl.cpp: the configuration of a new one, what its observer
-- tells the client, and the handles that a client asks it for.
pub mod Config
pub mod Events
pub mod Delivery
pub mod Lookup
