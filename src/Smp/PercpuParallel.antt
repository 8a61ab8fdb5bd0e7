-- ===== src/Smp/PercpuParallel.antt =====
-- smp/percpu/percpu_parallel.c: one counter and one thread per CPU.
pub mod Lifecycle
pub mod OwnCounter
pub mod Histories
use linux_kernel_samples.Base.{
  ℕ, zero, suc, ◌+◌, ◌-◌, ◌*◌, ◌%◌, ◌^◌, Bool, true, false, List, [], ◌∷◌, ℤ, pos, negsuc, is_zero,
  ltb, ◌==◌, if◌then◌else◌,
}
use linux_kernel_samples.Kernel.{
  Call, process, info, M, pure, ◌>>=◌, ◌>>◌, invoke, perform, printk, pr_info, get, modify,
}
use linux_kernel_samples.Kernel.Contract.{Resource, threads_of}
use linux_kernel_samples.Sample.{Callback, Sample}

-- Each CPU's `long`, as the unsigned number of its 64 bits.
pub record Globals : Type 0 where
  pub gs_count : ℕ → ℕ

abbrev pub interval_ms : ℕ
interval_ms = 1000

-- The `long` of 64 bits.
abbrev pub to_long : ℕ → ℤ
to_long n = if ltb n (2 ^ 63) then pos n else negsuc (2 ^ 64 - (n + 1))

abbrev pub set_count : ℕ → ℕ → Globals → Globals
set_count cpu n g = record { gs_count = λ c. if c == cpu then n else g.gs_count c }

pub read_and_inc_count_percpu : ℕ → M Globals (Unit {0})
read_and_inc_count_percpu cpu = do
  g ← get
  let val : ℕ = g.gs_count cpu
  modify (λ g. set_count cpu ((g.gs_count cpu + 1) % 2 ^ 64) g)
  printk info "CPU#%u=%ld" (pos cpu ∷ to_long val ∷ [])

pub percpu_parallel_should_run : ℕ → M Globals Bool
percpu_parallel_should_run cpu = do printk info "CPU#%u -> run" (pos cpu ∷ []); pure true

pub run_percpu_parallel : ℕ → M Globals (Unit {0})
unfolding read_and_inc_count_percpu
run_percpu_parallel cpu = do
  read_and_inc_count_percpu cpu
  timeout ← invoke (Call.msecs_to_jiffies interval_ms)
  perform (Call.schedule_timeout_interruptible timeout)

-- The thread of a CPU, as `smpboot` runs it: `thread_fn` where `thread_should_run` says so.
pub thread : ℕ → M Globals (Unit {0})
unfolding percpu_parallel_should_run run_percpu_parallel
thread cpu = do
  run ← percpu_parallel_should_run cpu
  if run then run_percpu_parallel cpu else pure tt

-- The loop over the possible CPUs, `left` of them, from `cpu` on.
pub set_counts : ℕ → ℕ → M Globals (Unit {0})
set_counts zero cpu = pure tt
set_counts (suc left) cpu = do
  modify (set_count cpu ((cpu + 1) % 2 ^ 32 * 100))
  set_counts left (cpu + 1)

pub percpu_parallel_module_init : ℕ → M Globals ℤ
unfolding set_counts
percpu_parallel_module_init n_cpus = do
  set_counts n_cpus 0
  ret ← invoke (Call.smpboot_register "percpu_parallel/%u")
  if is_zero ret
      then (printk info "loaded; interval=%ums" (pos interval_ms ∷ []) >> pure ret)
      else pure ret

pub percpu_parallel_module_exit : M Globals (Unit {0})
percpu_parallel_module_exit = do perform Call.smpboot_unregister; pr_info "unloaded"

-- What the loaded module holds, the newest first.
abbrev pub held : Globals → List Resource
held g = Resource.hotplug_threads ∷ []

-- The threads of the CPUs below a number.
abbrev pub threads : ℕ → List (Callback Globals)
threads zero = []
threads (suc cpu) =
    record { context = process; source = threads_of; body = thread cpu } ∷ threads cpu

abbrev pub initial : Globals
initial = record { gs_count = λ cpu. 0 }

-- `module_init`, `module_exit` and the threads on a machine with some number of CPUs.
abbrev pub percpu_parallel_sample : ℕ → Sample Globals
percpu_parallel_sample n_cpus = record {
  initial = initial;
  init = percpu_parallel_module_init n_cpus;
  exit = percpu_parallel_module_exit;
  callbacks = threads n_cpus;
  interrupts = threads n_cpus;
  held = held;
}
