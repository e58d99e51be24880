-- ===== src/Examples.antt =====
-- The programs of nwep/examples, each over the modelled parts of the library that it uses: their handlers,
-- their loops, and what their clients do.
mod Samples
pub mod Kv
pub mod Drop
pub mod Streaming
