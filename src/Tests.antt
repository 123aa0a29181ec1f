-- ===== src/Tests.antt =====
-- The theorems at concrete inputs.
mod Services
mod Sandboxes
mod Owners
mod Signals
mod Manager
mod Calls
mod Events
mod Executions
mod PackFiles
mod Tooling
mod Paths
mod Shells
mod Transfers
