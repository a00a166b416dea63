-- ===== src/OAuth.antt =====
-- imbi_api/auth/authorization_codes.py and oauth_clients.py, and the OAuth2 endpoints of
-- endpoints/auth.py: registration, authorization, and the token endpoint's grants.
pub mod Codes
pub mod Clients
pub mod Grants
pub mod ClientCredentials
pub mod Authorize
pub mod Exchange
pub mod Journey
pub mod Registered
mod Samples
mod Tests
mod ClientTests
