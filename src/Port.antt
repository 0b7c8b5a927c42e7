-- ===== src/Port.antt =====
-- lwIP's operating-system port, src/lwip/sys_arch.c.
pub mod Sem
pub mod Mbox
pub mod Clock
pub mod Wait
pub mod Protect
pub mod Objects
mod Tests
