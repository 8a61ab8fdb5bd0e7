-- ===== src/Smp.antt =====
-- smp/: the samples of per-CPU data.
pub mod PercpuParallel
