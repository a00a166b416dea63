-- ===== src/Auth.antt =====
-- imbi_api/auth/permissions.py: who a request comes from and what it may do.
pub mod Types
pub mod Cache
pub mod Directory
pub mod Scopes
pub mod KeyFormat
pub mod Keys
pub mod Tokens
pub mod Access
pub mod Guard
mod Tests
