-- ===== src/Connection.antt =====
-- A peer connection of the bridge, bridge/lumenrtc_bridge/src/rtc_peerconnection_impl.cc, and the calls of
-- native/src/lumenrtc_impl.cpp on it.
pub mod Native
pub mod States
pub mod Bridge
pub mod Operations
pub mod Closing
pub mod Life
pub mod Streams
pub mod Follow
pub mod Calls
pub mod Giving
