-- ===== src/Examples/Chatting.antt =====
-- Two clients that run: src/client/client.cpp, with a library and a server that accept nearly everything.
mod Library
mod Host
mod Sessions
mod Messages
mod Trust
