-- ===== src/Concurrency/Raisers.antt =====
-- interrupts/concurrency/interrupt_competition.c as a module: its load, its unload, the thread of each
-- CPU that raises the irq, and the two halves, each as one piece.
pub mod Keeps
pub mod Lifecycle
pub mod Raised
use linux_kernel_samples.Base.{
  ℕ, zero, suc, ◌+◌, ◌%◌, ◌^◌, Bool, true, false, not, List, [], ◌∷◌, ℤ, pos, is_err, is_zero, ltb,
  ◌==◌, if◌then◌else◌,
}
use linux_kernel_samples.Kernel.{
  irq_handled, enodev, sim_irq_lines, sim_irq_hwirq, Call, hardirq, softirq, process, info, err, M,
  out, pure, ◌>>=◌, ◌>>◌, invoke, perform, printk, pr_info, pr_context, get, modify,
}
use linux_kernel_samples.Kernel.Contract.{Resource, irq_line, tasklets, threads_of}
use linux_kernel_samples.Sample.{Callback, discard, Sample}

abbrev pub raises_per_cpu : ℕ
raises_per_cpu = 10

pub record Globals : Type 0 where
  pub gs_sim_domain : ℤ
  pub gs_virq : ℤ
  pub gs_shared_count : ℕ  -- unsigned long
  pub gs_hardirq_run_count : ℕ  -- unsigned int
  pub gs_pending_seq : ℕ
  pub gs_raise_count : ℕ → ℕ  -- of each CPU

-- `x ? "Y" : "N"`, as the code of the character.
abbrev pub yes_no : Bool → ℤ
yes_no b = if b then pos 89 else pos 78

abbrev pub in_softirq : M Globals Bool
in_softirq k g t = out (k.kernel.in_softirq t) g t

abbrev pub in_hardirq : M Globals Bool
in_hardirq k g t = out (k.kernel.in_hardirq t) g t

abbrev pub count_shared : Globals → Globals
count_shared g = record g { gs_shared_count = (g.gs_shared_count + 1) % 2 ^ 64 }

abbrev pub count_run : Globals → Globals
count_run g = record g { gs_hardirq_run_count = (g.gs_hardirq_run_count + 1) % 2 ^ 32 }

unfoldable pub interrupt_competition_bottom_half : M Globals (Unit {0})
interrupt_competition_bottom_half = do
  perform Call.spin_lock_irqsave
  g ← get
  let seq : ℕ = g.gs_pending_seq
  modify count_shared
  g ← get
  let val : ℕ = g.gs_shared_count
  perform Call.spin_unlock_irqrestore
  cpu ← invoke Call.smp_processor_id
  here ← in_softirq
  printk info "softirq  CPU#%u picking up hardirq #%-3u -> gs_shared_count=%-4lu  in_softirq=%s"
      (cpu ∷ pos seq ∷ pos val ∷ yes_no here ∷ [])

unfoldable pub interrupt_competition_top_half : M Globals ℤ
interrupt_competition_top_half = do
  perform Call.spin_lock_irqsave
  modify count_run
  g ← get
  let n : ℕ = g.gs_hardirq_run_count
  modify count_shared
  g ← get
  let val : ℕ = g.gs_shared_count
  modify (λ g. record g { gs_pending_seq = n })
  perform Call.spin_unlock_irqrestore
  cpu ← invoke Call.smp_processor_id
  here ← in_hardirq
  printk info "hardirq #%-3u CPU#%u -> gs_shared_count=%-4lu  in_hardirq=%s"
      (pos n ∷ cpu ∷ pos val ∷ yes_no here ∷ [])
  perform Call.tasklet_schedule
  pure irq_handled

pub irq_raiser_should_run : ℕ → Globals → Bool
irq_raiser_should_run cpu g = ltb (g.gs_raise_count cpu) raises_per_cpu

-- `this_cpu_inc(gs_raise_count)`
pub count_raise : ℕ → Globals → Globals
count_raise cpu g = record g {
  gs_raise_count = λ c. if c == cpu then (g.gs_raise_count c + 1) % 2 ^ 32 else g.gs_raise_count c;
}

pub run_irq_raiser : ℕ → M Globals (Unit {0})
run_irq_raiser cpu = do
  g ← get
  perform (Call.raise_irq g.gs_virq)
  modify (count_raise cpu)
  g ← get
  printk info "CPU#%u raised the shared irq (%u/%u)"
      (pos cpu ∷ pos (g.gs_raise_count cpu) ∷ pos raises_per_cpu ∷ [])
  perform (Call.schedule_timeout_interruptible (pos 1))

-- The thread of a CPU, as `smpboot` runs it: `thread_fn` where `thread_should_run` says so.
pub raiser_thread : ℕ → M Globals (Unit {0})
unfolding run_irq_raiser irq_raiser_should_run
raiser_thread cpu = do g ← get; if irq_raiser_should_run cpu g then run_irq_raiser cpu else pure tt

err_kill_tasklet : ℤ → M Globals ℤ
err_kill_tasklet ret = do perform Call.tasklet_kill; pure ret

err_remove_sim : ℤ → M Globals ℤ
unfolding err_kill_tasklet
err_remove_sim ret = do
  g ← get
  perform (Call.irq_domain_remove_sim g.gs_sim_domain)
  err_kill_tasklet ret

err_dispose_mapping : ℤ → M Globals ℤ
unfolding err_remove_sim
err_dispose_mapping ret = do
  g ← get
  perform (Call.irq_dispose_mapping g.gs_virq)
  err_remove_sim ret

err_free_irq : ℤ → M Globals ℤ
unfolding err_dispose_mapping
err_free_irq ret = do g ← get; perform (Call.free_irq g.gs_virq); err_dispose_mapping ret

-- `module_init` from its first `pr_info` on.
register_raisers : M Globals ℤ
register_raisers = do
  printk info "every online CPU will raise this one irq %d times at once" (pos raises_per_cpu ∷ [])
  ret ← invoke (Call.smpboot_register "irq_raiser/%u")
  if not (is_zero ret)
      then (printk err "smpboot_register_percpu_thread failed: %d" (ret ∷ []) >> err_free_irq ret)
      else do pr_info "loaded"; pure (pos 0)

pub interrupt_competition_module_init : M Globals ℤ
interrupt_competition_module_init = do
  pr_context "init"
  perform (Call.tasklet_setup "interrupt_competition_bottom_half")
  domain ← invoke (Call.irq_domain_create_sim sim_irq_lines)
  modify (λ g. record g { gs_sim_domain = domain })
  if is_err domain
      then (printk err "irq_domain_create_sim failed: %d" (domain ∷ []) >> err_kill_tasklet domain)
      else do
        virq ← invoke (Call.irq_create_mapping domain sim_irq_hwirq)
        modify (λ g. record g { gs_virq = virq })
        if is_zero virq
            then (printk err "irq_create_mapping failed" [] >> err_remove_sim enodev)
            else do
              ret ←
                  invoke
                    (Call.request_irq virq "interrupt_competition_top_half" "interrupt_competition")
              if not (is_zero ret)
                  then (printk err "request_irq failed: %d" (ret ∷ []) >> err_dispose_mapping ret)
                  else do register_raisers

pub interrupt_competition_module_exit : M Globals (Unit {0})
interrupt_competition_module_exit = do
  pr_context "exit"
  perform Call.smpboot_unregister
  g ← get
  perform (Call.free_irq g.gs_virq)
  perform (Call.irq_dispose_mapping g.gs_virq)
  perform (Call.irq_domain_remove_sim g.gs_sim_domain)
  perform Call.tasklet_kill
  printk info "unloaded; gs_hardirq_run_count=%u gs_shared_count=%lu"
      (pos g.gs_hardirq_run_count ∷ pos g.gs_shared_count ∷ [])

-- What the loaded module holds, the newest first.
abbrev pub held : Globals → List Resource
held g =
    Resource.hotplug_threads
    ∷ Resource.irq g.gs_virq
    ∷ Resource.mapping g.gs_virq
    ∷ Resource.domain g.gs_sim_domain
    ∷ Resource.tasklet
    ∷ []

abbrev pub initial : Globals
initial = record {
  gs_sim_domain = pos 0;
  gs_virq = pos 0;
  gs_shared_count = 0;
  gs_hardirq_run_count = 0;
  gs_pending_seq = 0;
  gs_raise_count = λ cpu. 0;
}

-- The threads of the CPUs below a number.
abbrev pub threads : ℕ → List (Callback Globals)
threads zero = []
threads (suc cpu) =
    record { context = process; source = threads_of; body = raiser_thread cpu } ∷ threads cpu

-- The callbacks on a machine with some number of CPUs, with the contexts that the kernel runs them in.
abbrev pub callbacks : ℕ → List (Callback Globals)
callbacks n_cpus =
    record { context = hardirq; source = irq_line; body = discard interrupt_competition_top_half }
    ∷ record { context = softirq; source = tasklets; body = interrupt_competition_bottom_half }
    ∷ threads n_cpus

-- `module_init`, `module_exit` and those callbacks.
abbrev pub interrupt_competition_sample : ℕ → Sample Globals
interrupt_competition_sample n_cpus = record {
  initial = initial;
  init = interrupt_competition_module_init;
  exit = interrupt_competition_module_exit;
  callbacks = callbacks n_cpus;
  interrupts = callbacks n_cpus;
  held = held;
}
