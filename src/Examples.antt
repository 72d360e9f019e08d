-- ===== src/Examples.antt =====
-- Runs of the modelled code on small inputs, and one application of each theorem that has
-- conditions.
mod Words
mod Options
pub mod Claims
pub mod Attachment
mod Operations
pub mod Settings
mod Release
mod Leases
mod Services
mod Handover
mod Kernel
mod Starting
mod Provisioning
mod Health
mod Counters
mod Prepares
