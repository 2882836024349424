-- ===== src/Sockets.antt =====
-- The socket helpers of book-src/sockets: input and output, and Internet domain sockets.
pub mod Inet
pub mod ReadLine
pub mod ReadLineBuf
pub mod Rdwrn
pub mod Seqnum
mod Tests
