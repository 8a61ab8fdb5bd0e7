-- ===== src/Danger/SleepInSoftirq/Armed.antt =====
-- The danger is where the file says: the sleep breaks the contract exactly when it is armed.
use linux_kernel_samples.Base.{◌≡◌, some, List, ◌∷◌, arith}
use linux_kernel_samples.Kernel.{Context, softirq, Trace, Kernel, quiet, Returns}
use linux_kernel_samples.Kernel.Contract.{ledger, ledger_with, Resource}
use linux_kernel_samples.Sample.Interrupts.{Holds}
use linux_kernel_samples.Danger.SleepInSoftirq.{Globals, softirq_danger_bottom_half}

-- From a trace that obeys the contract, the tasklet leaves the variables alone, and what was
-- held; it has slept in atomic context exactly if `danger_enabled` is set.
pub softirq_danger_bottom_half-armed :
    (k : Kernel) (g : Globals) (t : Trace) (cs : List Context) (rs : List Resource)
    → Holds (softirq ∷ cs) rs t
    → Returns
        (λ _ g' t'.
          (g' ≡ g) × (ledger t' ≡ some (ledger_with (softirq ∷ cs) rs g.gs_debugfs_danger_enabled)))
        (softirq_danger_bottom_half (quiet k) g t)
unfolding softirq_danger_bottom_half
softirq_danger_bottom_half-armed k g t cs rs h = grind arith
