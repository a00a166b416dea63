-- ===== src/Session.antt =====
-- imbi_api/auth/tokens.py, membership.py and the session endpoints of endpoints/auth.py: how token
-- pairs are issued, rotated and revoked.
pub mod Graph
pub mod Membership
pub mod Issue
pub mod Refresh
pub mod Logout
pub mod Added
pub mod Rows
pub mod Calls
pub mod Spent
pub mod Reuse
pub mod Single
pub mod Totp
pub mod Login
pub mod Mfa
mod Samples
mod Tests
mod FactorTests
