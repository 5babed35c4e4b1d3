-- ===== src/Go/Net.antt =====
-- Package `net` of Go.
pub mod Address
pub mod Canonical
pub mod Parsed
pub mod Parse
pub mod Format
pub mod HostPort
