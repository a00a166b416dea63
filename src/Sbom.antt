-- ===== src/Sbom.antt =====
-- imbi_api/sbom.py: the reading of a CycloneDX document.
pub mod Text
pub mod Components
pub mod Keys
mod Tests
