-- ===== src/Runtime.antt =====
-- nwep/src/runtime.rs: the loops of the owner threads, and the async side that talks to them.
pub mod ClientLoop
pub mod StreamPump
pub mod ServerLoop
pub mod Serving
pub mod Opening
pub mod AsyncApi
pub mod Wakeup
pub mod Waits
