-- ===== src/Tests.antt =====
-- Concrete parameters, and the theorems at concrete inputs.
mod Machine
mod Packets
mod Interrupts
mod Danger
mod Users
mod Counters
