-- ===== src/Blueprint.antt =====
-- imbi_api/blueprint_compliance.py and blueprint_attributes.py: what blueprints ask of a project's
-- properties, and the fixes that are offered.
pub mod Schema
pub mod Compliance
pub mod Remedy
pub mod Defaults
pub mod Fixes
pub mod Offers
pub mod Effects
pub mod Conformity
pub mod Attributes
mod Tests
