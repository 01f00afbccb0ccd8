-- ===== src/Ngmap.antt =====
-- bin/ngmap.py: the tool that encodes, decodes and changes the pinned BPF maps.
pub mod Pack
pub mod Hex
pub mod Keys
pub mod Protect
pub mod Exec
pub mod Host
pub mod Maps
pub mod Live
pub mod Block
pub mod Sweep
pub mod Report
pub mod Allow
pub mod Create
