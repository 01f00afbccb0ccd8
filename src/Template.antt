-- ===== src/Template.antt =====
-- zbx/check_template.py: the checks that the generated monitoring template passes in the build.
pub mod Export
pub mod Checker
pub mod Names
pub mod Uuids
pub mod Sanctions
pub mod Surface
pub mod Regexes
pub mod Removals
pub mod Main
