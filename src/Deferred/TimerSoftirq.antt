-- ===== src/Deferred/TimerSoftirq.antt =====
-- interrupts/deferred/timer_softirq.c: a timer that re-arms itself, in softirq context.
pub mod Lifecycle
pub mod Ticking
use linux_kernel_samples.Base.{ℕ, ◌+◌, ◌%◌, ◌^◌, List, [], ◌∷◌, ℤ, pos, negsuc}
use linux_kernel_samples.Kernel.{
  Call, softirq, info, M, pure, ◌>>=◌, ◌>>◌, invoke, perform, printk, pr_info, pr_context, get,
  modify,
}
use linux_kernel_samples.Kernel.Contract.{Resource, timers}
use linux_kernel_samples.Sample.{Callback, Sample}

pub record Globals : Type 0 where
  pub gs_tick_count : ℕ  -- unsigned long

abbrev pub interval_ms : ℕ
interval_ms = 1000

-- A result of type `unsigned long`, which is not negative.
abbrev pub unsigned : ℤ → ℕ
unsigned (pos n) = n
unsigned (negsuc n) = 0

-- `mod_timer(&gs_tick_timer, jiffies + msecs_to_jiffies(INTERVAL_MS))`
pub arm_timer : M Globals (Unit {0})
arm_timer = do
  jiffies ← invoke Call.read_jiffies
  interval ← invoke (Call.msecs_to_jiffies interval_ms)
  perform (Call.mod_timer ((unsigned jiffies + unsigned interval) % 2 ^ 64))

pub timer_softirq_bottom_half : M Globals (Unit {0})
unfolding arm_timer
timer_softirq_bottom_half = do
  pr_context "bottom half"
  modify (λ g. record { gs_tick_count = (g.gs_tick_count + 1) % 2 ^ 64 })
  g ← get
  printk info "tick=%lu" (pos g.gs_tick_count ∷ [])
  arm_timer

pub timer_softirq_module_init : M Globals ℤ
unfolding arm_timer
timer_softirq_module_init = do
  pr_context "init"
  perform (Call.timer_setup "timer_softirq_bottom_half")
  arm_timer
  printk info
      "loaded; interval=%ums; the top half is the kernel timer-tick interrupt, the bottom half runs in TIMER_SOFTIRQ"
      (pos interval_ms ∷ [])
  pure (pos 0)

pub timer_softirq_module_exit : M Globals (Unit {0})
timer_softirq_module_exit = do
  pr_context "exit"
  perform Call.timer_shutdown_sync
  g ← get
  printk info "unloaded; gs_tick_count=%lu" (pos g.gs_tick_count ∷ [])

-- What the loaded module holds, the newest first.
abbrev pub held : Globals → List Resource
held g = Resource.timer ∷ []

abbrev pub initial : Globals
initial = record { gs_tick_count = 0 }

-- The callback, with the context that the kernel runs it in.
abbrev pub callbacks : List (Callback Globals)
callbacks = record { context = softirq; source = timers; body = timer_softirq_bottom_half } ∷ []

abbrev pub timer_softirq_sample : Sample Globals
timer_softirq_sample = record {
  initial = initial;
  init = timer_softirq_module_init;
  exit = timer_softirq_module_exit;
  callbacks = callbacks;
  interrupts = callbacks;
  held = held;
}
