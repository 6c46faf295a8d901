-- ===== src/Protocol.antt =====
-- src/protocol: the messages and their encodings.
pub mod Messages
pub mod PrekeyBundle
pub mod TransportAuth
pub mod Serialization
pub mod SignInputs
pub mod Determined
pub mod BundleLaws
pub mod SignInputLaws
pub mod BundleInputLaws
pub mod TranscriptLaws
pub mod ChatInputLaws
