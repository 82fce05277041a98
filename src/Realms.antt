-- ===== src/Realms.antt =====
-- native/darktide-realms: the runtime that lets a game host peers of its own.
pub mod Slots
pub mod Events
pub mod Packet
pub mod Routes
pub mod Datagram
mod RouteTests
mod DatagramTests
mod Tests
