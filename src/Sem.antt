-- ===== src/Sem.antt =====
-- kernel/sem.c and sem.h: counting semaphores over the scheduler of process.c.
pub mod State
pub mod Calls
pub mod Free
pub mod Reach
pub mod Store
pub mod Counting
pub mod Numbers
pub mod Deleted
mod Tests
