-- ===== src/Provider.antt =====
-- infrastructure/starkbank_client.py: the client of the Stark Bank SDK.
pub mod Sdk
pub mod Transfers
pub mod Failures
pub mod Events
pub mod Subscriptions
pub mod Inspection
pub mod Verified
pub mod Worker
pub mod Ensured
