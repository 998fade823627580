-- ===== src/Examples.antt =====
-- Tests and witnesses: the modules' theorems at concrete inputs.
mod Data
mod Logins
mod Passwords
mod Links
mod Visits
mod Sweeps
mod Imports
mod Sessions
mod Redirects
mod Listings
mod Providers
mod Configs
mod Assertions
mod Passkeys
