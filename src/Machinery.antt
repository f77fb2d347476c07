-- ===== src/Machinery.antt =====
-- src/machinery: the engines that decide on speculation and bound the compiler.
pub mod Fuse
pub mod GroundFault
pub mod Governor
pub mod Meter
pub mod Trip
pub mod Regulator
pub mod Capacitor
pub mod Relay
pub mod Watchdog
mod Tests
