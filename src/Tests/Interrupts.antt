-- ===== src/Tests/Interrupts.antt =====
-- The samples on that kernel: loaded, run, unloaded and loaded again.
use linux_kernel_samples.Base.{
  ◌≡◌, ◌-◌, refl, ◌+◌, ◌%◌, ◌^◌, arith, true, List, [], ◌∷◌, pos, ℤ, negsuc,
}
use linux_kernel_samples.Kernel.{Call, Kernel, Returns}
use linux_kernel_samples.Sample.{Action, insmod, rmmod, run_callback, history, interrupted}
use linux_kernel_samples.Sample.Contract.{Always, ObeysContract, ReportsAfter}
use linux_kernel_samples.Deferred.TimerSoftirq.{timer_softirq_sample}
use linux_kernel_samples.Deferred.TimerSoftirq.Lifecycle.{timer_softirq-obeys}
use linux_kernel_samples.Deferred.NetRxSoftirq.{net_rx_softirq_sample}
use linux_kernel_samples.Deferred.NetRxSoftirq.Lifecycle.{net_rx_softirq-obeys}
use linux_kernel_samples.Concurrency.Raisers.{interrupt_competition_sample}
use linux_kernel_samples.Concurrency.Raisers.Raised.{Bounded, interrupt_competition-Bounded}
use linux_kernel_samples.Concurrency.Raisers.Lifecycle.{interrupt_competition-obeys}
use linux_kernel_samples.Smp.PercpuParallel.{percpu_parallel_sample}
use linux_kernel_samples.Smp.PercpuParallel.Lifecycle.{percpu_parallel-obeys}
use linux_kernel_samples.Smp.PercpuParallel.Histories.{Counted, percpu_parallel-Counted}
use linux_kernel_samples.Deferred.TimerSoftirq.Ticking.{Ticking, Stopped, timer_softirq-Ticking}
use linux_kernel_samples.Sample.Tracking.Histories.{Tracked}
use linux_kernel_samples.DataStructure.ContainerOf
use linux_kernel_samples.DataStructure.ContainerOf.Recovery.{
  checks_pass, count_checks, container_of_module_init-passes,
}
use linux_kernel_samples.Loads.{loads-ReportsAfter}
use linux_kernel_samples.Tests.Packets.{packets}
use linux_kernel_samples.Tests.Machine.{reply, machine, machine-Accepts, machine-DeliversPending}
use linux_kernel_samples.Hardirq.DisableIrq.{disable_irq_sample}
use linux_kernel_samples.Hardirq.DisableIrq.Lifecycle.{disable_irq-obeys}
use linux_kernel_samples.Hardirq.Hardirq.{hardirq_sample}
use linux_kernel_samples.Hardirq.Hardirq.Lifecycle.{hardirq-obeys}
use linux_kernel_samples.Hardirq.IrqNone.{irq_none_sample}
use linux_kernel_samples.Hardirq.IrqNone.Lifecycle.{irq_none-obeys}
use linux_kernel_samples.Deferred.Tasklet.{tasklet_sample}
use linux_kernel_samples.Deferred.Tasklet.Lifecycle.{tasklet-obeys}
use linux_kernel_samples.Deferred.BhWorkqueue.{bh_workqueue_sample}
use linux_kernel_samples.Deferred.BhWorkqueue.Lifecycle.{bh_workqueue-obeys}
use linux_kernel_samples.Deferred.WorkqueueSample.{workqueue_sample_sample}
use linux_kernel_samples.Deferred.WorkqueueSample.Lifecycle.{workqueue_sample-obeys}
use linux_kernel_samples.Deferred.ThreadedIrq.{threaded_irq_sample}
use linux_kernel_samples.Deferred.ThreadedIrq.Lifecycle.{threaded_irq-obeys}
use linux_kernel_samples.Danger.SleepInHardirq.{sleep_in_hardirq_danger_sample}
use linux_kernel_samples.Danger.SleepInSoftirq.{sleep_in_softirq_danger_sample}
use linux_kernel_samples.Hardirq.DisableIrq
use linux_kernel_samples.Hardirq.DisableIrq.Merge.{disable_irq_module_init-Merged}

-- The newest action first.
abbrev session : List Action
session = insmod ∷ rmmod ∷ run_callback 1 ∷ run_callback 0 ∷ insmod ∷ []

disable_irq-obeys_example :
    ObeysContract disable_irq_sample (history machine disable_irq_sample session)
disable_irq-obeys_example = disable_irq-obeys machine session

hardirq-obeys_example : ObeysContract hardirq_sample (history machine hardirq_sample session)
hardirq-obeys_example = hardirq-obeys machine session

irq_none-obeys_example : ObeysContract irq_none_sample (history machine irq_none_sample session)
irq_none-obeys_example = irq_none-obeys machine session

tasklet-obeys_example : ObeysContract tasklet_sample (history machine tasklet_sample session)
tasklet-obeys_example = tasklet-obeys machine session

bh_workqueue-obeys_example :
    ObeysContract bh_workqueue_sample (history machine bh_workqueue_sample session)
bh_workqueue-obeys_example = bh_workqueue-obeys machine session

workqueue_sample-obeys_example :
    ObeysContract workqueue_sample_sample (history machine workqueue_sample_sample session)
workqueue_sample-obeys_example = workqueue_sample-obeys machine session

threaded_irq-obeys_example :
    ObeysContract threaded_irq_sample (history machine threaded_irq_sample session)
threaded_irq-obeys_example = threaded_irq-obeys machine session

disable_irq_module_init-Merged_example :
    Returns
      (λ ret g' t'. (ret ≡ pos 0) × (g'.gs_handler_run_count ≡ (0 + 1) % 2 ^ 32))
      (DisableIrq.disable_irq_module_init
        (interrupted machine DisableIrq.callbacks)
        DisableIrq.initial
        [])
disable_irq_module_init-Merged_example =
    disable_irq_module_init-Merged machine machine-Accepts machine-DeliversPending
      DisableIrq.initial [] (omega arith) refl

timer_softirq-obeys_example :
    ObeysContract timer_softirq_sample (history machine timer_softirq_sample session)
timer_softirq-obeys_example = timer_softirq-obeys machine session

net_rx_softirq-obeys_example :
    ObeysContract
      (net_rx_softirq_sample packets)
      (history machine (net_rx_softirq_sample packets) session)
net_rx_softirq-obeys_example = net_rx_softirq-obeys packets machine session

interrupt_competition-obeys_example :
    ObeysContract
      (interrupt_competition_sample 2)
      (history machine (interrupt_competition_sample 2) session)
interrupt_competition-obeys_example = interrupt_competition-obeys 2 machine session

interrupt_competition-Bounded_example :
    Tracked
      (Bounded 2)
      Always
      (history machine (interrupt_competition_sample 2) session).phase
      (history machine (interrupt_competition_sample 2) session).trace
interrupt_competition-Bounded_example = interrupt_competition-Bounded 2 machine session

percpu_parallel-obeys_example :
    ObeysContract (percpu_parallel_sample 2) (history machine (percpu_parallel_sample 2) session)
percpu_parallel-obeys_example = percpu_parallel-obeys 2 machine session

percpu_parallel-Counted_example :
    Tracked
      (Counted 2)
      Always
      (history machine (percpu_parallel_sample 2) session).phase
      (history machine (percpu_parallel_sample 2) session).trace
percpu_parallel-Counted_example = percpu_parallel-Counted 2 machine session

timer_softirq-Ticking_example :
    Tracked Ticking Stopped
      (history machine timer_softirq_sample session).phase
      (history machine timer_softirq_sample session).trace
timer_softirq-Ticking_example = timer_softirq-Ticking machine session

-- The layout that natural alignment gives.
abbrev natural : ContainerOf.Layout
natural = record { aligned_value = 8; nested_value = 16; nested_value_value = 20; tail = 24 }

abbrev subtraction : ContainerOf.Macro
subtraction = record {
  container_of = λ ptr off. (ptr + (2 ^ 64 - off)) % 2 ^ 64;
  subtracts = λ ptr off fits. refl;
}

container_of_module_init-passes_example :
    ((ContainerOf.container_of_module_init subtraction natural 4096).0 ≡ pos 0)
    × (count_checks (ContainerOf.container_of_module_init subtraction natural 4096).1 ≡ 3)
    × (checks_pass (ContainerOf.container_of_module_init subtraction natural 4096).1 ≡ true)
container_of_module_init-passes_example =
    container_of_module_init-passes subtraction natural 4096 (omega arith) (omega arith)
      (omega arith) (omega arith)

-- The irq can be requested, and its handler runs, but raising it from the load fails with -EBUSY.
abbrev busy_reply : Call → ℤ
busy_reply (Call.raise_irq q) = negsuc 15
busy_reply c = reply c

abbrev busy : Kernel
busy = record machine { answer = λ t c. busy_reply c }

abbrev unloaded_again : List Action
unloaded_again = rmmod ∷ run_callback 1 ∷ run_callback 0 ∷ insmod ∷ []

loads-ReportsAfter_example :
    ReportsAfter busy unloaded_again hardirq_sample
    × ReportsAfter busy unloaded_again irq_none_sample
    × ReportsAfter busy unloaded_again disable_irq_sample
    × ReportsAfter busy unloaded_again tasklet_sample
    × ReportsAfter busy unloaded_again workqueue_sample_sample
    × ReportsAfter busy unloaded_again bh_workqueue_sample
    × ReportsAfter busy unloaded_again threaded_irq_sample
    × ReportsAfter busy unloaded_again timer_softirq_sample
    × ReportsAfter busy unloaded_again (net_rx_softirq_sample packets)
    × ReportsAfter busy unloaded_again (sleep_in_hardirq_danger_sample (true ∷ []))
    × ReportsAfter busy unloaded_again (sleep_in_softirq_danger_sample (true ∷ []))
    × ReportsAfter busy unloaded_again (interrupt_competition_sample 2)
    × ReportsAfter busy unloaded_again (percpu_parallel_sample 2)
loads-ReportsAfter_example = loads-ReportsAfter busy 2 packets (true ∷ []) unloaded_again
