-- ===== src/Poll.antt =====
-- src/poll_thread_manager.cpp: the workers, started and stopped, their commands and completions.
-- What the thread asks of SPDK, of the clock and of the generators is answered by arguments. SPDK
-- calls a completion callback only from `spdk_nvme_qpair_process_completions`, never from
-- `spdk_nvme_ns_cmd_copy` itself, so a submission is not interrupted by a completion.
pub mod State
pub mod Submit
pub mod Retry
pub mod Balance
pub mod Complete
pub mod Flight
pub mod Batch
pub mod Sent
pub mod Start
pub mod Launch
pub mod Lifecycle
pub mod Worker
pub mod Exit
pub mod Poller
pub mod System
pub mod Reconnect
pub mod Samples
mod Tests
