-- ===== src/Yaml.antt =====
-- build/mkyaml.py: one host's suricata.yaml from the stock one and a parameter file.
pub mod Value
pub mod Generate
pub mod Captures
pub mod Overlay
