-- ===== src/Sigio.antt =====
-- origin-src/unpv13e/sigio/dgecho01.c: a UDP echo server driven by SIGIO. The handler puts
-- datagrams into a ring of QSIZE slots, the main loop takes them out and sends them back.
pub mod Queue
pub mod Steps
pub mod System
mod Tests
