-- ===== src/Scheduler.antt =====
-- kernel/src/cpp/scheduling: threads, processes, their queues, and the switch between threads.
--
-- Scheduler/State has the records, Scheduler/Switch the functions of scheduler.cpp that switch
-- threads, Scheduler/Events those of events.cpp. The other modules state what these do.
pub mod State
pub mod Events
pub mod Switch
pub mod Lifecycle
pub mod Processes
pub mod Syscalls
pub mod Fixtures
mod Tests
