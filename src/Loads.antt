-- ===== src/Loads.antt =====
-- The samples together.
use linux_kernel_samples.Base.{ℕ, Bool, Option, List}
use linux_kernel_samples.Kernel.{Kernel}
use linux_kernel_samples.Sample.{Action}
use linux_kernel_samples.Sample.Contract.{ReportsAfter}
use linux_kernel_samples.Sample.Errors.{Reports}
use linux_kernel_samples.Hardirq.Hardirq.{hardirq_sample}
use linux_kernel_samples.Hardirq.Hardirq.Lifecycle.{hardirq-Reports, hardirq-ReportsAfter}
use linux_kernel_samples.Hardirq.IrqNone.{irq_none_sample}
use linux_kernel_samples.Hardirq.IrqNone.Lifecycle.{irq_none-Reports, irq_none-ReportsAfter}
use linux_kernel_samples.Hardirq.DisableIrq.{disable_irq_sample}
use linux_kernel_samples.Hardirq.DisableIrq.Lifecycle.{
  disable_irq-Reports, disable_irq-ReportsAfter,
}
use linux_kernel_samples.Deferred.Tasklet.{tasklet_sample}
use linux_kernel_samples.Deferred.Tasklet.Lifecycle.{tasklet-Reports, tasklet-ReportsAfter}
use linux_kernel_samples.Deferred.WorkqueueSample.{workqueue_sample_sample}
use linux_kernel_samples.Deferred.WorkqueueSample.Lifecycle.{
  workqueue_sample-Reports, workqueue_sample-ReportsAfter,
}
use linux_kernel_samples.Deferred.BhWorkqueue.{bh_workqueue_sample}
use linux_kernel_samples.Deferred.BhWorkqueue.Lifecycle.{
  bh_workqueue-Reports, bh_workqueue-ReportsAfter,
}
use linux_kernel_samples.Deferred.ThreadedIrq.{threaded_irq_sample}
use linux_kernel_samples.Deferred.ThreadedIrq.Lifecycle.{
  threaded_irq-Reports, threaded_irq-ReportsAfter,
}
use linux_kernel_samples.Deferred.TimerSoftirq.{timer_softirq_sample}
use linux_kernel_samples.Deferred.TimerSoftirq.Lifecycle.{
  timer_softirq-Reports, timer_softirq-ReportsAfter,
}
use linux_kernel_samples.Deferred.NetRxSoftirq.{net_rx_softirq_sample, SkBuff}
use linux_kernel_samples.Deferred.NetRxSoftirq.Lifecycle.{
  net_rx_softirq-Reports, net_rx_softirq-ReportsAfter,
}
use linux_kernel_samples.Danger.SleepInHardirq.{sleep_in_hardirq_danger_sample}
use linux_kernel_samples.Danger.SleepInHardirq.Lifecycle.{
  sleep_in_hardirq_danger-Reports, sleep_in_hardirq_danger-ReportsAfter,
}
use linux_kernel_samples.Danger.SleepInSoftirq.{sleep_in_softirq_danger_sample}
use linux_kernel_samples.Danger.SleepInSoftirq.Lifecycle.{
  sleep_in_softirq_danger-Reports, sleep_in_softirq_danger-ReportsAfter,
}
use linux_kernel_samples.Concurrency.Raisers.{interrupt_competition_sample}
use linux_kernel_samples.Concurrency.Raisers.Lifecycle.{
  interrupt_competition-Reports, interrupt_competition-ReportsAfter,
}
use linux_kernel_samples.Smp.PercpuParallel.{percpu_parallel_sample}
use linux_kernel_samples.Smp.PercpuParallel.Lifecycle.{
  percpu_parallel-Reports, percpu_parallel-ReportsAfter,
}

-- Whatever the kernel answers, on any number of CPUs, for any packets and any values written to
-- `danger_enabled`, and where no callback interrupts the load: each `module_init` returns the error of
-- the first call in its trace that failed, where NULL from `alloc_workqueue` is -ENOMEM and 0 from
-- `irq_create_mapping` is -ENODEV, and 0 if none did.
pub loads-Reports :
    (k : Kernel) (n_cpus : ℕ) (skbs : List (Option SkBuff)) (values : List Bool)
    → Reports k hardirq_sample
      × Reports k irq_none_sample
      × Reports k disable_irq_sample
      × Reports k tasklet_sample
      × Reports k workqueue_sample_sample
      × Reports k bh_workqueue_sample
      × Reports k threaded_irq_sample
      × Reports k timer_softirq_sample
      × Reports k (net_rx_softirq_sample skbs)
      × Reports k (sleep_in_hardirq_danger_sample values)
      × Reports k (sleep_in_softirq_danger_sample values)
      × Reports k (interrupt_competition_sample n_cpus)
      × Reports k (percpu_parallel_sample n_cpus)
loads-Reports k n_cpus skbs values = (
  hardirq-Reports k,
  irq_none-Reports k,
  disable_irq-Reports k,
  tasklet-Reports k,
  workqueue_sample-Reports k,
  bh_workqueue-Reports k,
  threaded_irq-Reports k,
  timer_softirq-Reports k,
  net_rx_softirq-Reports skbs k,
  sleep_in_hardirq_danger-Reports values k,
  sleep_in_softirq_danger-Reports values k,
  interrupt_competition-Reports n_cpus k,
  percpu_parallel-Reports n_cpus k,
)

-- Whatever the kernel answers, on any number of CPUs, for any packets and any values written to
-- `danger_enabled`, after any history of a module, and however often the callbacks that are
-- registered meanwhile interrupt the calls: where the module is not loaded, its next load returns the
-- error of the first of the load's own calls that failed, where NULL from `alloc_workqueue` is
-- -ENOMEM and 0 from `irq_create_mapping` is -ENODEV, and 0 if none did. What the calls of the
-- callbacks return plays no part.
pub loads-ReportsAfter :
    (k : Kernel) (n_cpus : ℕ) (skbs : List (Option SkBuff)) (values : List Bool)
    (actions : List Action)
    → ReportsAfter k actions hardirq_sample
      × ReportsAfter k actions irq_none_sample
      × ReportsAfter k actions disable_irq_sample
      × ReportsAfter k actions tasklet_sample
      × ReportsAfter k actions workqueue_sample_sample
      × ReportsAfter k actions bh_workqueue_sample
      × ReportsAfter k actions threaded_irq_sample
      × ReportsAfter k actions timer_softirq_sample
      × ReportsAfter k actions (net_rx_softirq_sample skbs)
      × ReportsAfter k actions (sleep_in_hardirq_danger_sample values)
      × ReportsAfter k actions (sleep_in_softirq_danger_sample values)
      × ReportsAfter k actions (interrupt_competition_sample n_cpus)
      × ReportsAfter k actions (percpu_parallel_sample n_cpus)
loads-ReportsAfter k n_cpus skbs values actions = (
  hardirq-ReportsAfter k actions,
  irq_none-ReportsAfter k actions,
  disable_irq-ReportsAfter k actions,
  tasklet-ReportsAfter k actions,
  workqueue_sample-ReportsAfter k actions,
  bh_workqueue-ReportsAfter k actions,
  threaded_irq-ReportsAfter k actions,
  timer_softirq-ReportsAfter k actions,
  net_rx_softirq-ReportsAfter skbs k actions,
  sleep_in_hardirq_danger-ReportsAfter values k actions,
  sleep_in_softirq_danger-ReportsAfter values k actions,
  interrupt_competition-ReportsAfter n_cpus k actions,
  percpu_parallel-ReportsAfter n_cpus k actions,
)
