-- ===== src/Client.antt =====
-- The requests of nwep/src/client.rs: `RequestBuilder`, the borrow-free form that the managed
-- runtime uses, and the handle of a request in flight.
pub mod Api
mod Requests
mod Handles
mod Driven
pub mod Samples
mod Tests
pub mod Connecting
pub mod Opening
pub mod Sending
pub mod Reading
pub mod Submitting
pub mod Callbacks
pub use Api.*
unfoldable pub use Requests.*
unfoldable pub use Handles.*
unfoldable pub use Driven.*
