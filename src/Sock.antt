-- ===== src/Sock.antt =====
-- origin-src/unpv13e/sock: the `sock` tool's newline conversion, its client loop over select, and
-- the pattern that its source modes send.
pub mod Crlf
pub mod Loop
pub mod Pattern
mod Tests
