-- ===== src/Tests/Danger.antt =====
-- The samples that sleep in atomic context, after a write of 1 to `danger_enabled`.
use linux_kernel_samples.Base.{◌≡◌, refl, Bool, true, false, some, List, [], ◌∷◌}
use linux_kernel_samples.Kernel.{irq_handled, enter, hardirq, softirq, quiet, Returns}
use linux_kernel_samples.Kernel.Contract.{ledger, ledger_with}
use linux_kernel_samples.Sample.{Action, insmod, rmmod, run_callback, history}
use linux_kernel_samples.Sample.Contract.{ObeysIn}
use linux_kernel_samples.Tests.Machine.{machine}
use linux_kernel_samples.Danger.SleepInHardirq
use linux_kernel_samples.Danger.SleepInSoftirq
use linux_kernel_samples.Danger.SleepInHardirq.{sleep_in_hardirq_danger_sample}
use linux_kernel_samples.Danger.SleepInHardirq.Lifecycle.{sleep_in_hardirq_danger-obeys}
use linux_kernel_samples.Danger.SleepInSoftirq.{sleep_in_softirq_danger_sample}
use linux_kernel_samples.Danger.SleepInSoftirq.Lifecycle.{sleep_in_softirq_danger-obeys}
use linux_kernel_samples.Danger.SleepInHardirq.Armed.{hardirq_danger_top_half-armed}
use linux_kernel_samples.Danger.SleepInSoftirq.Armed.{softirq_danger_bottom_half-armed}

abbrev one : List Bool
one = true ∷ []

-- Load, write to `danger_enabled` and to `trigger`, the handler, and unload; the newest first.
abbrev armed_session : List Action
armed_session = rmmod ∷ run_callback 0 ∷ run_callback 1 ∷ run_callback 2 ∷ insmod ∷ []

sleep_in_hardirq_danger-obeys_example :
    ObeysIn false
      (sleep_in_hardirq_danger_sample one)
      (history machine (sleep_in_hardirq_danger_sample one) armed_session)
sleep_in_hardirq_danger-obeys_example = sleep_in_hardirq_danger-obeys one machine armed_session

-- Load, the two writes, the handler, the tasklet, and unload; the newest first.
abbrev armed_tasklet_session : List Action
armed_tasklet_session =
    rmmod ∷ run_callback 1 ∷ run_callback 0 ∷ run_callback 2 ∷ run_callback 3 ∷ insmod ∷ []

sleep_in_softirq_danger-obeys_example :
    ObeysIn false
      (sleep_in_softirq_danger_sample one)
      (history machine (sleep_in_softirq_danger_sample one) armed_tasklet_session)
sleep_in_softirq_danger-obeys_example =
    sleep_in_softirq_danger-obeys one machine armed_tasklet_session

-- `danger_enabled` has been set.
abbrev armed_in_hardirq : SleepInHardirq.Globals
armed_in_hardirq = record SleepInHardirq.initial { gs_debugfs_danger_enabled = true }

hardirq_danger_top_half-armed_example :
    Returns
      (λ ret g' t'.
        (ret ≡ irq_handled)
        × (g' ≡ armed_in_hardirq)
        × (ledger t' ≡ some (ledger_with (hardirq ∷ []) [] true)))
      (SleepInHardirq.hardirq_danger_top_half (quiet machine) armed_in_hardirq (enter hardirq ∷ []))
hardirq_danger_top_half-armed_example =
    hardirq_danger_top_half-armed machine armed_in_hardirq (enter hardirq ∷ []) [] [] refl

abbrev armed_in_softirq : SleepInSoftirq.Globals
armed_in_softirq = record SleepInSoftirq.initial { gs_debugfs_danger_enabled = true }

softirq_danger_bottom_half-armed_example :
    Returns
      (λ _ g' t'. (g' ≡ armed_in_softirq) × (ledger t' ≡ some (ledger_with (softirq ∷ []) [] true)))
      (SleepInSoftirq.softirq_danger_bottom_half
        (quiet machine)
        armed_in_softirq
        (enter softirq ∷ []))
softirq_danger_bottom_half-armed_example =
    softirq_danger_bottom_half-armed machine armed_in_softirq (enter softirq ∷ []) [] [] refl
