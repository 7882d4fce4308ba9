-- ===== src/Nonblock.antt =====
-- origin-src/unpv13e/nonblock: the TCP echo client with nonblocking descriptors (strclinonb.c), and the
-- web client with nonblocking connects (web.c).
pub mod Client
pub mod Web
mod Tests
