-- ===== src/Server/Tcp.antt =====
-- src/server/tcp_server.cpp: what the server does with a frame.
pub mod PreAuth
pub mod Dispatch
pub mod Frames
pub mod DispatchLaws
pub mod FrameLaws
pub mod PreAuthLaws
