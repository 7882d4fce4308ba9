-- ===== src/Stream.antt =====
-- The byte stream under a connected socket, as the kernel's read and write show it: parameters
-- of the programs, with the documented behaviour of the two calls as laws.
pub mod Kernel
pub mod View
pub mod Readn
pub mod Writen
pub mod Readline
pub mod Frames
pub mod Scripted
mod Tests
