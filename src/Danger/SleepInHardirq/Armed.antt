-- ===== src/Danger/SleepInHardirq/Armed.antt =====
-- The danger is where the file says: the sleep breaks the contract exactly when it is armed.
use linux_kernel_samples.Base.{◌≡◌, some, List, ◌∷◌, arith}
use linux_kernel_samples.Kernel.{irq_handled, Context, hardirq, Trace, Kernel, quiet, Returns}
use linux_kernel_samples.Kernel.Contract.{ledger, ledger_with, Resource}
use linux_kernel_samples.Sample.Interrupts.{Holds}
use linux_kernel_samples.Danger.SleepInHardirq.{Globals, hardirq_danger_top_half}

-- From a trace that obeys the contract, the top half returns `IRQ_HANDLED` and leaves the variables
-- alone, and what was held; it has slept in atomic context exactly if `danger_enabled` is set.
pub hardirq_danger_top_half-armed :
    (k : Kernel) (g : Globals) (t : Trace) (cs : List Context) (rs : List Resource)
    → Holds (hardirq ∷ cs) rs t
    → Returns
        (λ ret g' t'.
          (ret ≡ irq_handled)
          × (g' ≡ g)
          × (ledger t' ≡ some (ledger_with (hardirq ∷ cs) rs g.gs_debugfs_danger_enabled)))
        (hardirq_danger_top_half (quiet k) g t)
unfolding hardirq_danger_top_half
hardirq_danger_top_half-armed k g t cs rs h = grind arith
