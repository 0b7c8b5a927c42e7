-- ===== src/Driver.antt =====
-- The drivers between libquiet and lwIP: src/util.c, src/driver.c and src/driver_portaudio.c.
pub mod Pbuf
pub mod Frame
pub mod Receive
pub mod Transmit
pub mod Halfduplex
pub mod Setup
pub mod Lifecycle
pub mod Audio
mod Tests
