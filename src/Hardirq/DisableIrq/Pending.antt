-- ===== src/Hardirq/DisableIrq/Pending.antt =====
-- What `disable_irq` relies on: an irq that is raised stays pending, in one bit, until the handler runs,
-- and the handler does not run between `disable_irq` and `enable_irq`.
use linux_kernel_samples.Base.{
  ℕ, ◌+◌, ◌≡◌, ◌≤◌, Bool, true, false, ◌||◌, some, List, [], ◌∷◌, ℤ, is_zero, ltb, if◌then◌else◌,
}
use linux_kernel_samples.Kernel.{Call, call, enter, Trace, Kernel}
use linux_kernel_samples.Kernel.Contract.{Resource, irq_line, ledger_of, ledger}
use linux_kernel_samples.Sample.{is_live, may_interrupt}

-- The pending bit: set by a raise that succeeds, cleared when the handler runs, and clear on a fresh
-- request.
abbrev pub pending_after : Call → ℤ → Bool → Bool
pending_after (Call.raise_irq q) v b = is_zero v || b
pending_after (Call.request_irq q f n) v b = false
pending_after c v b = b

abbrev pub pending : Trace → Bool
pending [] = false
pending (call c v ∷ t) = pending_after c v (pending t)
pending (enter c ∷ t) = false
pending (e ∷ t) = pending t

-- Between `disable_irq` and `enable_irq`.
abbrev pub is_masked : List Resource → Bool
is_masked [] = false
is_masked (Resource.masked v ∷ rs) = true
is_masked (r ∷ rs) = is_masked rs

abbrev pub bit : Bool → ℕ
bit b = if b then 1 else 0

-- How many of the callbacks that the kernel picks are the handler.
abbrev pub picks : List ℕ → ℕ
picks [] = 0
picks (i ∷ due) = bit (ltb i 2) + picks due

-- How often the handler runs before the call that ends the trace returns.
abbrev pub runs : Kernel → Trace → ℕ
runs k t = if may_interrupt irq_line (ledger t) then picks (k.interrupts t) else 0

-- The documented behaviour of the interrupt core that the sample shows.
pub record DeliversPending (k : Kernel) : Type 0 where
  -- The handler runs for a pending irq only, once.
  pub merges : (t : Trace) → runs k t ≤ bit (pending t)
  -- It does not run while the line is disabled.
  pub holds_back :
      (t : Trace) {held : List Resource}
      → ledger t ≡ some (ledger_of [] held)
      → is_masked held ≡ true
      → runs k t ≡ 0
  -- Where the line is requested and enabled, a pending irq is delivered by the end of a sleep that is
  -- allowed.
  pub is_prompt :
      (t : Trace) (n : ℕ) (v : ℤ) {held : List Resource}
      → ledger (call (Call.msleep n) v ∷ t) ≡ some (ledger_of [] held)
      → is_live irq_line held ≡ true
      → is_masked held ≡ false
      → runs k (call (Call.msleep n) v ∷ t) ≡ bit (pending t)
