-- ===== src/Auth.antt =====
-- internal/auth: identity resolution, local logins, local self-signup.
pub mod Crypto
pub mod Identity
pub mod Local
pub mod Signup
pub mod Sessions
pub mod Providers
pub mod Nonces
pub mod Oidc
pub mod Saml
pub mod Passkeys
