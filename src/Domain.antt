-- ===== src/Domain.antt =====
-- src/starkbank_trial/domain: the values that the stores and the services exchange.
pub mod Time
pub mod Status
pub mod Errors
pub mod Models
pub mod Events
pub mod Money
pub mod Transfer
pub mod Values
