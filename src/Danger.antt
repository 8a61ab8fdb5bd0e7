-- ===== src/Danger.antt =====
-- interrupts/danger/: the samples that sleep in atomic context on demand.
pub mod Writes
pub mod SleepInHardirq
pub mod SleepInSoftirq
