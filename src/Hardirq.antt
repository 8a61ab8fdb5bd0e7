-- ===== src/Hardirq.antt =====
-- interrupts/hardirq/: the samples of top halves.
pub mod Hardirq
pub mod IrqNone
pub mod DisableIrq
