-- ===== src/Deferred.antt =====
-- interrupts/deferred/: the samples of bottom halves.
pub mod Tasklet
pub mod BhWorkqueue
pub mod WorkqueueSample
pub mod ThreadedIrq
pub mod TimerSoftirq
pub mod NetRxSoftirq
