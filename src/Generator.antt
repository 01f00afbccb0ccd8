-- ===== src/Generator.antt =====
-- zbx/gen-template.py: the monitoring template, rendered from a table with the uuids carried over.
pub mod Table
pub mod Rows
pub mod Discovery
pub mod Uuid
pub mod Render
pub mod Reread
pub mod Lookup
pub mod Made
pub mod Scoped
pub mod Carry
pub mod Same
pub mod Again
pub mod Wiring
pub mod Surface
pub mod Minted
pub mod Main
