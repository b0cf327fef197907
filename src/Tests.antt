-- ===== src/Tests.antt =====
-- Examples of the theorems on concrete inputs.
mod Frames
mod Desktop
mod Texts
mod Codecs
mod Documents
mod Encodings
mod Peers
mod Connections
mod Sessions
mod Media
mod Wrappers
