-- ===== src/Isa.antt =====
-- isa.py: the six instructions, one module each.
pub mod Common
pub mod Verify
pub mod Repair
pub mod Glossary
pub mod Entities
pub mod Translate
pub mod Analyze
pub mod Logs
