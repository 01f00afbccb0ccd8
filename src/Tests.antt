-- ===== src/Tests.antt =====
-- A concrete host, tests of the definitions and instances of the theorems.
mod Kernel
mod Blocking
mod Responding
mod Templating
mod Commanding
mod Generating
mod Dashboards
mod Reconciling
mod Rendering
mod Boards
