-- ===== src/Static.antt =====
-- serverHandlerStatic.go: static files. The ranges of a request, the negotiation of the headers and
-- the body.
pub mod Numbers
pub mod Ranges
pub mod Etag
pub mod Headers
pub mod Serve
mod Tests
