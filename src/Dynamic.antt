-- ===== src/Dynamic.antt =====
-- serverHandlerDynamic.go: the dynamic pages.
pub mod Templater
pub mod Cache
