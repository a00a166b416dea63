-- ===== src/Plugins.antt =====
-- Capabilities of integrations: which integration serves a project (plugins/).
pub mod Values
pub mod Bindings
pub mod Registry
pub mod Resolution
mod Tests
