-- ===== src/Hardirq/DisableIrq.antt =====
-- interrupts/hardirq/disable_irq.c: raises held back while the line is disabled.
pub mod Pending
mod Deliver
mod Runs
pub mod Lifecycle
mod Owed
pub mod Merge
use linux_kernel_samples.Base.{
  ℕ, zero, suc, ◌+◌, ◌-◌, ltb, ◌%◌, ◌^◌, String, Bool, true, false, not, List, [], ◌∷◌, ℤ, pos,
  negsuc, is_err, is_zero, if◌then◌else◌,
}
use linux_kernel_samples.Kernel.{
  gfp_atomic, gfp_kernel, irq_none, irq_handled, irq_wake_thread, enodev, enomem, sim_irq_lines,
  sim_irq_hwirq, Call, hardirq, softirq, process, info, warn, err, M, pure, ◌>>=◌, ◌>>◌, invoke,
  perform, printk, pr_info, pr_context, get, modify,
}
use linux_kernel_samples.Kernel.Contract.{Resource, irq_line}
use linux_kernel_samples.Sample.{Callback, discard, Sample}

pub record Globals : Type 0 where
  pub gs_sim_domain : ℤ
  pub gs_handler_run_count : ℕ
  pub gs_virq : ℤ

abbrev pub disabled_raise_count : ℕ
disabled_raise_count = 5

abbrev pub raise_interval_ms : ℕ
raise_interval_ms = 1000

-- The value of an `atomic_t`, which is signed.
pub as_int : ℕ → ℤ
as_int n = if ltb n (2 ^ 31) then pos n else negsuc (2 ^ 32 - (n + 1))

-- `atomic_inc_return` on a 32-bit `atomic_t`.
abbrev pub count_up : Globals → Globals
count_up g = record g { gs_handler_run_count = (g.gs_handler_run_count + 1) % 2 ^ 32 }

pub disable_irq_top_half : M Globals ℤ
disable_irq_top_half = do
  pr_context "top half"
  pr_info
      "delivered by software resend from enable_irq (irq_sim has no hardware retrigger), so this runs in softirq, not hardirq"
  modify count_up
  g ← get
  printk info "handler ran -> IRQ_HANDLED (run #%d)" (as_int g.gs_handler_run_count ∷ [])
  pure irq_handled

-- A call, under a name that the proofs unfold only where they need what it does.
pub interruptible : Call → M Globals ℤ
interruptible c = invoke c

-- The rounds of the `for` loop that are left, and its `i`. A result other than 0 leaves the loop for
-- `err_enable_irq`.
pub raise_loop : ℕ → ℕ → M Globals ℤ
raise_loop zero i = pure (pos 0)
raise_loop (suc left) i = do
  g ← get
  ret ← interruptible (Call.raise_irq g.gs_virq)
  if not (is_zero ret)
      then (printk err "failed to raise the simulated irq: %d" (ret ∷ []) >> pure ret)
      else do
        interruptible (Call.msleep raise_interval_ms)
        g ← get
        printk info "raise %d/%d while disabled -> handler runs so far: %d"
            (pos i ∷ pos disabled_raise_count ∷ as_int g.gs_handler_run_count ∷ [])
        raise_loop left (i + 1)

err_remove_sim : ℤ → M Globals ℤ
err_remove_sim ret = do g ← get; perform (Call.irq_domain_remove_sim g.gs_sim_domain); pure ret

err_dispose_mapping : ℤ → M Globals ℤ
unfolding err_remove_sim
err_dispose_mapping ret = do
  g ← get
  perform (Call.irq_dispose_mapping g.gs_virq)
  err_remove_sim ret

err_free_irq : ℤ → M Globals ℤ
unfolding err_dispose_mapping
err_free_irq ret = do g ← get; perform (Call.free_irq g.gs_virq); err_dispose_mapping ret

err_enable_irq : ℤ → M Globals ℤ
err_enable_irq ret = do g ← get; interruptible (Call.enable_irq g.gs_virq); err_free_irq ret

-- `module_init` from `disable_irq` on.
raise_while_disabled : M Globals ℤ
raise_while_disabled = do
  g ← get
  interruptible (Call.disable_irq g.gs_virq)
  pr_info "irq disabled; raises now only set IRQS_PENDING"
  ret ← raise_loop disabled_raise_count 1
  if not (is_zero ret) then err_enable_irq ret else do
    pr_info "calling enable_irq -- the pending irq is delivered now"
    g ← get
    interruptible (Call.enable_irq g.gs_virq)
    interruptible (Call.msleep raise_interval_ms)
    g ← get
    printk info "%d raises while disabled -> handler runs after enable_irq: %d"
        (pos disabled_raise_count ∷ as_int g.gs_handler_run_count ∷ [])
    pr_info "loaded"
    pure (pos 0)

pub disable_irq_module_init : M Globals ℤ
disable_irq_module_init = do
  pr_context "init"
  domain ← invoke (Call.irq_domain_create_sim sim_irq_lines)
  modify (λ g. record g { gs_sim_domain = domain })
  if is_err domain
      then (printk err "irq_domain_create_sim failed: %d" (domain ∷ []) >> pure domain)
      else do
        virq ← invoke (Call.irq_create_mapping domain sim_irq_hwirq)
        modify (λ g. record g { gs_virq = virq })
        if is_zero virq
            then (printk err "irq_create_mapping failed" [] >> err_remove_sim enodev)
            else do
              ret ← invoke (Call.request_irq virq "disable_irq_top_half" "disable_irq")
              if not (is_zero ret)
                  then (printk err "request_irq failed: %d" (ret ∷ []) >> err_dispose_mapping ret)
                  else do raise_while_disabled

pub disable_irq_module_exit : M Globals (Unit {0})
disable_irq_module_exit = do
  pr_context "exit"
  g ← get
  perform (Call.free_irq g.gs_virq)
  perform (Call.irq_dispose_mapping g.gs_virq)
  perform (Call.irq_domain_remove_sim g.gs_sim_domain)
  pr_info "unloaded"

-- What the loaded module holds, the newest first.
abbrev pub held : Globals → List Resource
held g = Resource.irq g.gs_virq ∷ Resource.mapping g.gs_virq ∷ Resource.domain g.gs_sim_domain ∷ []

abbrev pub initial : Globals
initial = record { gs_sim_domain = pos 0; gs_handler_run_count = 0; gs_virq = pos 0 }

-- The handler, as the kernel runs it for an interrupt and when it resends a pending one.
abbrev pub callbacks : List (Callback Globals)
callbacks =
    record { context = hardirq; source = irq_line; body = discard disable_irq_top_half }
    ∷ record { context = softirq; source = irq_line; body = discard disable_irq_top_half }
    ∷ []

abbrev pub disable_irq_sample : Sample Globals
disable_irq_sample = record {
  initial = initial;
  init = disable_irq_module_init;
  exit = disable_irq_module_exit;
  callbacks = callbacks;
  interrupts = callbacks;
  held = held;
}
