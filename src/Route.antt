-- ===== src/Route.antt =====
-- route.go: the router. Placeholder segments, the extraction of parameters, the table of routes
-- and the dispatch of a request.
pub mod Segment
pub mod Extract
pub mod Table
pub mod Serve
mod Tests
