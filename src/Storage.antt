-- ===== src/Storage.antt =====
-- internal/storage: the stores behind the services' ports, statement by statement.
pub mod Accounts
pub mod Credentials
pub mod Links
pub mod Stats
pub mod Listing
pub mod Cipher
pub mod Providers
pub mod Passkeys
