-- ===== src/Server.antt =====
-- nwep/src/server.rs: what a handler answers with, the answers given later, and the life of a server.
pub mod Responder
pub mod Deferred
pub mod Build
pub mod Reading
