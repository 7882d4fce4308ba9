-- ===== src/Tcpserv.antt =====
-- The TCP echo servers that serve all clients in one process: with poll
-- (my-src/Chapter-06/tcpsrvpoll01.c) and with select (origin-src/unpv13e/tcpcliserv/tcpservselect01.c).
pub mod Poll
pub mod Select
mod Tests
