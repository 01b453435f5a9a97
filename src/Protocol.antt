-- ===== src/Protocol.antt =====
-- The scheduler, the mutexes and the devices together: what holds of the kernel's state between
-- two system calls or timer interrupts, after task_create (lab4/lab4/kernel).
pub mod Defs
pub mod Lists
pub mod Take
pub mod Switch
pub mod Park
pub mod Append
pub mod Wait
pub mod Wake
pub mod Tick
pub mod Update
pub mod Moves
pub mod Held
pub mod Locks
pub mod Pair
pub mod Section
pub mod Urgent
pub mod Preempt
pub mod Asleep
pub mod Parks
pub mod Pulse
pub mod Turn
pub mod Clock
pub mod Reach
pub mod Await
