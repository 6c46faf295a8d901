-- ===== src/Protocol/Serialization.antt =====
-- src/protocol/serialization.cpp
pub mod Writer
pub mod Reader
pub mod Codec
pub mod Words
pub mod Words64
pub mod Fields
pub mod Whole
pub mod Items
pub mod Messages
pub mod MessageCodecs
pub mod InitialCodec
pub mod Prekeys
pub mod PrekeyCodecs
pub mod BundleCodec
pub mod Requests
pub mod RequestCodecs
pub mod FinishCodecs
pub mod Envelopes
pub mod EnvelopeCodec
pub mod VectorCodecs
pub mod EnvelopeVector
pub mod InboxVector
pub mod Payloads
pub mod PayloadLaws
pub mod InboxFields
pub mod InboxRequests
pub mod InboxRequestLaws
