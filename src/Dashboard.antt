-- ===== src/Dashboard.antt =====
-- The dashboards of zbx/dashboards.py, with the library zbx/lib.py.
pub mod Widget
pub mod Builders
pub mod Grid
pub mod Fleet
pub mod Sizes
pub mod Canvas
pub mod Tiles
pub mod Boards
pub mod Fits
pub mod Within
pub mod Laid
pub mod Plans
pub mod Apply
pub mod Reads
pub mod Upsert
