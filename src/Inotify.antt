-- ===== src/Inotify.antt =====
-- The directory monitor of book-src/inotify/inotify_dtree.c: its watch cache, the pathnames, the
-- kernel that it runs on, the walks over the tree, and the events.
pub mod Run
pub mod Paths
pub mod Cache
pub mod Kernel
pub mod Roots
pub mod Tree
pub mod Event
pub mod Loop
pub mod Startup
pub mod Command
pub mod Main
mod Tests
