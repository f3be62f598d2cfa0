-- ===== src/Http.antt =====
-- pkg/http: messages, the request on the wire, and the server.
mod Tests
pub mod Message
pub mod Server
pub mod Strings
pub mod Parse
pub mod Client
pub mod Url
pub mod Response
pub mod Exchange
pub mod Fixtures
mod ExchangeTests
mod AcceptTests
