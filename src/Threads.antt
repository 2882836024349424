-- ===== src/Threads.antt =====
-- The programs of book-src/threads that synchronise with a mutex, two of them with a condition
-- variable. In those two a section that holds the mutex is one step of its thread. The calls of the
-- pthread library are taken to succeed. The `int` counters stand on ℕ.
pub mod Multijoin
pub mod OneTime
pub mod ProdCondvar
