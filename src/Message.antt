-- ===== src/Message.antt =====
-- kernel/message_queue.c and message_queue.h: queues of messages between processes.
pub mod State
pub mod Calls
pub mod Transfers
pub mod Dormant
mod Tests
