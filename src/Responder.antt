-- ===== src/Responder.antt =====
-- bin/nodeguard-responder: from Suricata's alerts to blocks.
pub mod State
pub mod Handler
pub mod Gates
pub mod Rates
pub mod Window
pub mod Offenses
pub mod Escalation
pub mod Repeat
pub mod Boot
pub mod Loop
pub mod Rehearsal
