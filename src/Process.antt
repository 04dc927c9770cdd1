-- ===== src/Process.antt =====
-- kernel/process.c and process.h: the processes, the scheduler and the calls on them.
pub mod State
pub mod Schedule
pub mod Calls
pub mod Others
pub mod Display
pub mod Places
pub mod Reap
pub mod Switch
pub mod Outcome
pub mod Taken
pub mod Choice
pub mod Fair
pub mod Turns
pub mod Keeps
pub mod Ending
pub mod Blocking
pub mod Stack
pub mod Register
pub mod Numbers
pub mod Starting
pub mod Boot
pub mod Relink
pub mod Priority
pub mod Chprio
pub mod Event
pub mod Steps
pub mod Reach
pub mod Histories
pub mod Waiting
mod Tests
