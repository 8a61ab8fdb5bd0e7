-- ===== src/Kernel.antt =====
-- The kernel that the samples call, as a parameter. None of its code is part of this repository, so a
-- call is an event of a trace, and its result is whatever the parameter answers. A sample is a
-- program over its file-scope variables and that trace.
pub mod Contract
pub mod Hoare
use linux_kernel_samples.Base.{ℕ, String, Bool, List, [], ◌∷◌, ℤ, pos, negsuc}

pub data GfpFlags : Type 0 where
  gfp_atomic gfp_kernel : GfpFlags

-- The calls of the samples. A function pointer is written as the name of the function.
pub data Call : Type 0 where
  irq_domain_create_sim : ℕ → Call
  irq_domain_remove_sim : ℤ → Call
  irq_create_mapping : ℤ → ℕ → Call
  irq_dispose_mapping : ℤ → Call
  request_irq : ℤ → String → String → Call
  request_threaded_irq : ℤ → String → String → String → Call
  free_irq : ℤ → Call
  disable_irq : ℤ → Call
  enable_irq : ℤ → Call
  raise_irq : ℤ → Call  -- irq_set_irqchip_state(virq, IRQCHIP_STATE_PENDING, true)
  tasklet_setup : String → Call
  tasklet_schedule : Call
  tasklet_kill : Call
  alloc_workqueue : String → Bool → Call  -- the flag WQ_BH
  queue_work : ℤ → String → Call
  destroy_workqueue : ℤ → Call
  smpboot_register : String → Call
  smpboot_unregister : Call
  debugfs_create_dir : String → Call
  debugfs_create_bool : String → ℤ → Call
  debugfs_create_file : String → ℤ → Call
  debugfs_remove : ℤ → Call
  kmalloc : ℕ → GfpFlags → Call
  kfree : ℤ → Call
  msleep : ℕ → Call
  schedule_timeout_interruptible : ℤ → Call
  msecs_to_jiffies : ℕ → Call
  smp_processor_id : Call
  spin_lock_irqsave : Call
  spin_unlock_irqrestore : Call
  timer_setup : String → Call
  read_jiffies : Call
  mod_timer : ℕ → Call
  timer_shutdown_sync : Call
  nf_register_net_hook : String → Call
  nf_unregister_net_hook : Call

-- `irqreturn_t` and the errors of `<linux/errno.h>` that the samples name.
abbrev pub irq_none : ℤ
irq_none = pos 0

abbrev pub irq_handled : ℤ
irq_handled = pos 1

abbrev pub irq_wake_thread : ℤ
irq_wake_thread = pos 2

-- -ENODEV
abbrev pub enodev : ℤ
enodev = negsuc 18

-- -ENOMEM
abbrev pub enomem : ℤ
enomem = negsuc 11

-- The simulated domain of every sample has one line, its hardware number 0.
abbrev pub sim_irq_lines : ℕ
sim_irq_lines = 1

abbrev pub sim_irq_hwirq : ℕ
sim_irq_hwirq = 0

pub data Context : Type 0 where
  hardirq softirq process : Context

pub data Level : Type 0 where
  info warn err : Level

pub data Event : Type 0 where
  call : Call → ℤ → Event
  log : Level → String → List ℤ → Event
  context_line : String → (in_hardirq in_softirq in_task : Bool) → Event
  -- The kernel enters a callback in a context, and leaves it.
  enter : Context → Event
  leave : Event

-- The newest event first.
abbrev pub Trace : Type 0
Trace = List Event

-- What a call returns may depend on all that went before.
pub record Kernel : Type 0 where
  pub answer : Trace → Call → ℤ
  -- Which callbacks run, one after the other, before the call that ends the trace returns.
  pub interrupts : Trace → List ℕ
  pub in_hardirq : Trace → Bool
  pub in_softirq : Trace → Bool
  pub in_task : Trace → Bool

pub data Out (S A : Type 0) : Type 0 where
  out : A → S → Trace → Out S A

-- Where code runs: what the callbacks that interrupt a call make of the variables and of the trace.
pub record Machine (S : Type 0) : Type 0 where
  pub kernel : Kernel
  pub state_after : S → Trace → S
  pub trace_after : S → Trace → Trace

-- Nothing interrupts the code.
abbrev pub quiet : {S : Type 0} → Kernel → Machine S
quiet k = record { kernel = k; state_after = λ s t. s; trace_after = λ s t. t }

abbrev pub M : Type 0 → Type 0 → Type 0
M S A = Machine S → S → Trace → Out S A

abbrev pub and_then : {S A B : Type 0} → Out S A → (A → S → Trace → Out S B) → Out S B
and_then (out a s t) f = f a s t

abbrev pub pure : {S A : Type 0} → A → M S A
pure a k s t = out a s t

-- A line of a `do` block may drop its result.
infixl 5 ◌>>=◌ ◌>>◌
abbrev pub ◌>>=◌ : {S A B : Type 0} → M S A → (A → M S B) → M S B
◌>>=◌ m f k s t = and_then (m k s t) (λ a s' t'. f a k s' t')

abbrev pub ◌>>◌ : {S A B : Type 0} → M S A → M S B → M S B
m >> n = m >>= λ _. n

module _ {S : Type 0} where
  abbrev pub invoke : Call → M S ℤ
  invoke c k s t =
      let v = k.kernel.answer t c in
      let t' : Trace = call c v ∷ t in out v (k.state_after s t') (k.trace_after s t')

  -- A call whose result the source does not use.
  abbrev pub perform : Call → M S (Unit {0})
  perform c k s t =
      let t' : Trace = call c (k.kernel.answer t c) ∷ t in
      out tt (k.state_after s t') (k.trace_after s t')

  abbrev pub printk : Level → String → List ℤ → M S (Unit {0})
  printk l format args k s t = out tt s (log l format args ∷ t)

  abbrev pub pr_info : String → M S (Unit {0})
  pr_info message = printk info message []

  -- The line `<name>: in_hardirq=%s in_softirq=%s in_task=%s`.
  abbrev pub pr_context : String → M S (Unit {0})
  pr_context name k s t =
      out tt s
        (context_line name (k.kernel.in_hardirq t) (k.kernel.in_softirq t) (k.kernel.in_task t) ∷ t)

  abbrev pub get : M S S
  get k s t = out s s t

  abbrev pub modify : (S → S) → M S (Unit {0})
  modify f k s t = out tt (f s) t

-- The run returns, and what it returns satisfies `P`.
abbrev pub Returns : {S A : Type 0} → (A → S → Trace → Type 0) → Out S A → Type 0
Returns P (out a s t) = P a s t
