-- ===== src/Client.antt =====
-- src/client/client.cpp: the client of a user.
pub mod State
pub mod Act
pub mod Host
pub mod LocalState
pub mod KeySchedule
pub mod ReplayGuards
pub mod Identity
pub mod Prekeys
pub mod Chat
pub mod Handshake
pub mod Accept
pub mod Inbox
pub mod Create
pub mod ScheduleLaws
pub mod ChatLaws
pub mod ChatSafety
pub mod SendLaws
pub mod SyncLaws
pub mod Delivered
pub mod GuardLaws
pub mod GuardSafety
pub mod Refused
pub mod IdentityLaws
pub mod AcceptLaws
pub mod OpenLaws
pub mod OfferLaws
pub mod HandshakeSync
pub mod HandshakeDone
pub mod HandshakeAgreed
pub mod InboxLaws
pub mod PrekeyLaws
pub mod UsedUp
pub mod PrekeyErased
pub mod PrekeyKept
pub mod InboxKept
pub mod PrekeyRuns
