-- ===== src/Concurrency.antt =====
-- interrupts/concurrency/: one irq raised by every CPU.
pub mod Competition
pub mod Raisers
