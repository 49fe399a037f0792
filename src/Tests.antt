-- ===== src/Tests.antt =====
-- The theorems at concrete inputs.
mod Values
mod Streams
mod Calls
mod Launching
mod Exchanges
mod Lines
mod Cancelling
mod Connecting
mod Sessions
mod Background
mod Asking
mod Directories
mod Transporting
mod Tooling
mod Addresses
mod Extending
mod Happening
