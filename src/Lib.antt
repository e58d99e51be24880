-- ===== src/Lib.antt =====
-- nwep-rs: a safe Rust interface to libnwep, a C library for the WEB/1 protocol.
--
-- The crate `nwep` wraps the C library, which is not part of the repository: every call of it is
-- a parameter here, over a type `W` that stands for the library's state. Modelled is what the
-- Rust code itself decides: which arguments it passes and refuses, how it reads return codes,
-- what its owner threads do with their queues, and when it frees and clears what it has lent to
-- C.
--
-- The parts, with their files below the folder of this file:
-- - Error (nwep/src/error.rs): the errors, their codes, `from_code` and `check`, and their texts;
--   Error/Given compares errors and codes.
-- - Wire (nwep/src/wire.rs): methods, statuses and the token table.
-- - Ffi (the conversions in nwep/src/client.rs and nwep/src/server.rs): C strings, header arrays
--   and bodies; Ffi/Calls has the monad in which the code over C is written.
-- - Message (nwep/src/message.rs): the iterator `Headers`; Message/Reading: the readers of `Response` in
--   nwep/src/client.rs and `Request` in nwep/src/server.rs.
-- - Sizing (`produce` of nwep/src/log.rs): the probe for a size and the call that fills a
--   buffer.
-- - Shamir (nwep/src/shamir.rs): `split` and `combine`.
-- - Secrets (`zeroize` of nwep/src/identity.rs): the buffers that nwep/src makes for private keys, beside
--   the library's state; Secrets/Wiping puts runs together that leave none behind. Identity
--   (nwep/src/identity.rs), Log (nwep/src/log.rs), Trust (nwep/src/trust) and Client/Opening (`ClientBuilder`
--   of nwep/src/client.rs) lend keys over it.
-- - Utf8: what `str::from_utf8` accepts and `from_utf8_lossy` gives, for Identity, Uri and Cache.
-- - Log: entries, their builders and decoders; Log/Merkle: the log in memory.
-- - Trust: Bls, Checkpoint with the genesis ceremony, Anchor, Store (nwep/src/trust/store.rs and
--   nwep/src/trust/key.rs).
-- - Cache (nwep/src/cache.rs); Cache/Shared: `Client::set_cache` and the drop of a client, with the
--   reference counts of the caches.
-- - Address (nwep/src/address.rs) and Uri (nwep/src/uri.rs).
-- - Lifecycle: the rules for a C handle with a callback, on which Client/Callbacks
--   (`on_request_done` and the drops of nwep/src/client.rs), Client/Connecting and LogServer
--   (nwep/src/logserver.rs) are replayed.
-- - Client (nwep/src/client.rs): the request builder, the handle of a request in flight, and the
--   driven calls; Client/Sending: `Client::send`; Client/Reading: its counters, its peer and its streams.
-- - Runtime/ClientLoop (nwep/src/runtime.rs): `run_client_loop`, which submits what the async
--   side sends, polls what is in flight and answers on oneshot channels. It calls Client, which
--   calls Ffi and Error. Runtime/StreamPump: the loop of `ClientBuilder::stream`, and
--   `AsyncStream::recv`.
-- - Runtime/ServerLoop (nwep/src/runtime.rs): `run_server_loop` and `resolve_on_thread`, over
--   Dht (nwep/src/dht.rs).
-- - Runtime/Wakeup (nwep/src/runtime.rs and nwep/src/poll.rs): the two sides of `AsyncClient`,
--   its `dispatch` and its drop on one and the owner thread on the other, as interleaved moves.
-- - Runtime/Serving (nwep/src/runtime.rs): the start of the thread that `serve` spawns; Serving/Closing counts
--   the DHTs that are open for it. Runtime/Opening: the
--   starts of the threads of `connect_async` and `stream`, over Client/Opening and Client/Reading, up to the
--   loops of ClientLoop and StreamPump. Runtime/AsyncApi: the request builder of `AsyncClient` and the handle
--   `RunningServer`.
-- - Poll (nwep/src/poll.rs): the wakers of the owner threads and their waits, on unix and on windows;
--   Runtime/Waits has the waits that the loops of nwep/src/runtime.rs make.
-- - Raw (nwep/src/raw.rs): the casts of socket handles.
-- - Build (nwep-sys/build.rs): the search of the build script for the library's archive.
-- - Dht/Bootstrap (nwep/src/dht.rs): contacts and records.
-- - Server (nwep/src/server.rs): Responder has `Responder`, `CapturingResponder` and the
--   handler's trampoline; Deferred has `DeferredResponder`; Build has `ServerBuilder` and the
--   drop of a server, replayed on Lifecycle; Reading has the ranges of a request and the counters.
-- - Examples, the programs of nwep/examples, over Client, Server and Dht: Kv (nwkv.rs), whose store is the
--   association list of Kv/Storage; Drop (nwdrop.rs), the sender, the download and the loop `pump`; Streaming
--   (nwcurl.rs and managed_stream.rs), whose clients are in Streaming/Clients. The turns and rounds of
--   their loops are lists, and what `tick` dispatches is the input of a turn.
--
-- Native integers: a C `int` is an integer `ℤ` without bounds, since the code only compares it;
-- sizes are natural numbers; the subtraction of two `u64` in the server's loop wraps around, as
-- in a release build. A loop is on fuel: the polling pass has the number of requests in flight,
-- since each round drops an entry or goes past one; `chunks` has the number of bytes; the loop
-- over headers one more than the count. The stream loop runs as long as the stream goes on: it needs
-- one round for each chunk.
-- The draining of a waker needs one read more than there are pending. A download needs one round for
-- each 16 bytes and one more; a stream is fed in at most one round more than the body has bytes, since
-- a round takes a byte or ends.
--
-- Threads: the owner thread and the async side share a channel and a waker. In ClientLoop and
-- ServerLoop an interleaving is what the owner thread takes from the channel in each turn; in
-- Wakeup it is a list of moves of the two sides. The bound of the channel only removes
-- interleavings and is left out. Memory ordering is not modelled. A oneshot sender is a number;
-- a box is a number that is given out once.
--
-- The clocks, the stop flag and the deadline of a lookup are inputs of the turns and the rounds.
--
-- A buffer of a private key is what it holds when its owner returns; the buffer of a PEM text is one where
-- `to_pem` drops it. The identity itself and values that Rust moves are not tracked. A byte array has no fixed length in its type; where a length matters
-- it is a hypothesis.
--
-- Not modelled: the C library itself; the implicit drops at the end of the threads of `connect_async` and
-- `stream`; the parser of socket addresses, which is the standard library's;
-- the printing of versions and keys, and of the tokens that the C library names; the declarations of
-- nwep-sys that no modelled code reads; the build script of nwep, which prints two lines; the tests; the
-- examples hello_server.rs, identity.rs, managed.rs, managed_dht.rs, nwlog.rs, nwproxy.rs and nwserve.rs,
-- whose own code is a handler or a loop of a few lines over the calls that are modelled. The start of the
-- servers of the other examples is that of Server/Build.
pub mod Utf8
pub mod Identity
pub mod Log
pub mod Address
pub mod Uri
pub mod Cache
pub mod Trust
pub mod Secrets
pub mod Base
pub mod Error
pub mod Ffi
pub mod Message
pub mod Wire
pub mod Lifecycle
pub mod Client
pub mod Dht
pub mod Poll
pub mod Runtime
pub mod Server
pub mod LogServer
pub mod Sizing
pub mod Shamir
pub mod Build
pub mod Raw
pub mod Examples
