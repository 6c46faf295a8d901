-- ===== src/Client/LocalState.antt =====
-- The state that a client of src/client/client.cpp keeps in a file.
pub mod Payload
pub mod Sealed
pub mod Files
pub mod Save
pub mod Load
pub mod Restore
pub mod FileLaws
pub mod SealedLaws
