-- ===== src/Tests.antt =====
-- Runs of the theorems on concrete inputs.
mod Strings
mod Conversions
mod Settings
mod Streams
mod Services
mod Processes
mod Dependencies
mod Monitoring
mod Configurations
mod Booting
mod Commands
