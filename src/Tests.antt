-- ===== src/Tests.antt =====
-- The theorems on concrete inputs: small stand-ins for the packages, and a run of each component.
mod Fixtures
mod Bans
mod Windows
mod Tickets
mod Notices
mod Reflexes
mod Sessions
mod Settings
mod Signals
mod Dials
