-- ===== src/Examples.antt =====
-- The theorems applied to concrete inputs.
pub mod Encodings
pub mod Signing
pub mod Serving
pub mod Frames
pub mod Chatting
