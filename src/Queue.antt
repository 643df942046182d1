-- ===== src/Queue.antt =====
-- The list macros of include/queue.h on the memory that they change.
pub mod Tailq
