-- ===== src/Deferred/ThreadedIrq.antt =====
-- interrupts/deferred/threaded_irq.c: a bottom half in a dedicated IRQ kthread.
pub mod Lifecycle
use linux_kernel_samples.Base.{
  ℕ, String, Bool, true, false, not, List, [], ◌∷◌, ℤ, pos, negsuc, is_err, is_zero, if◌then◌else◌,
}
use linux_kernel_samples.Kernel.{
  gfp_atomic, gfp_kernel, irq_none, irq_handled, irq_wake_thread, enodev, enomem, sim_irq_lines,
  sim_irq_hwirq, Call, hardirq, softirq, process, info, warn, err, M, pure, ◌>>=◌, ◌>>◌, invoke,
  perform, printk, pr_info, pr_context, get, modify,
}
use linux_kernel_samples.Kernel.Contract.{Resource, irq_line}
use linux_kernel_samples.Sample.{Callback, discard, Sample}

pub record Globals : Type 0 where
  pub gs_sim_domain : ℤ
  pub gs_virq : ℤ

pub threaded_irq_top_half : M Globals ℤ
threaded_irq_top_half = do
  pr_context "top half"
  pr_info "waking the irq thread for the bottom half"
  pure irq_wake_thread

pub threaded_irq_bottom_half : M Globals ℤ
threaded_irq_bottom_half = do
  pr_context "bottom half"
  buf ← invoke (Call.kmalloc 64 gfp_kernel)
  if is_zero buf then (printk err "GFP_KERNEL kmalloc failed" [] >> pure irq_handled) else do
    perform (Call.kfree buf)
    pr_info "GFP_KERNEL kmalloc ok; the irq thread runs in its own kthread and may sleep"
    perform (Call.msleep 10)
    pr_info "slept 10ms in the irq thread; allowed in this dedicated kthread"
    pure irq_handled

err_remove_sim : ℤ → M Globals ℤ
err_remove_sim ret = do g ← get; perform (Call.irq_domain_remove_sim g.gs_sim_domain); pure ret

err_dispose_mapping : ℤ → M Globals ℤ
unfolding err_remove_sim
err_dispose_mapping ret = do
  g ← get
  perform (Call.irq_dispose_mapping g.gs_virq)
  err_remove_sim ret

err_free_irq : ℤ → M Globals ℤ
unfolding err_dispose_mapping
err_free_irq ret = do g ← get; perform (Call.free_irq g.gs_virq); err_dispose_mapping ret

pub threaded_irq_module_init : M Globals ℤ
threaded_irq_module_init = do
  pr_context "init"
  domain ← invoke (Call.irq_domain_create_sim sim_irq_lines)
  modify (λ g. record g { gs_sim_domain = domain })
  if is_err domain
      then (printk err "irq_domain_create_sim failed: %d" (domain ∷ []) >> pure domain)
      else do
        virq ← invoke (Call.irq_create_mapping domain sim_irq_hwirq)
        modify (λ g. record g { gs_virq = virq })
        if is_zero virq
            then (printk err "irq_create_mapping failed" [] >> err_remove_sim enodev)
            else do
              ret ← invoke (
                  Call.request_threaded_irq virq "threaded_irq_top_half" "threaded_irq_bottom_half"
                    "threaded_irq")
              if not (is_zero ret)
                  then (printk err "request_threaded_irq failed: %d" (ret ∷ [])
                      >> err_dispose_mapping ret)
                  else do
                    ret ← invoke (Call.raise_irq virq)
                    if not (is_zero ret)
                        then (printk err "failed to raise the simulated irq: %d" (ret ∷ [])
                            >> err_free_irq ret)
                        else do pr_info "loaded"; pure (pos 0)

pub threaded_irq_module_exit : M Globals (Unit {0})
threaded_irq_module_exit = do
  pr_context "exit"
  g ← get
  perform (Call.free_irq g.gs_virq)
  perform (Call.irq_dispose_mapping g.gs_virq)
  perform (Call.irq_domain_remove_sim g.gs_sim_domain)
  pr_info "unloaded"

-- What the loaded module holds, the newest first.
abbrev pub held : Globals → List Resource
held g = Resource.irq g.gs_virq ∷ Resource.mapping g.gs_virq ∷ Resource.domain g.gs_sim_domain ∷ []

abbrev pub initial : Globals
initial = record { gs_sim_domain = pos 0; gs_virq = pos 0 }

-- The callbacks, with the contexts that the kernel runs them in and what they are registered by.
abbrev pub callbacks : List (Callback Globals)
callbacks =
    record { context = hardirq; source = irq_line; body = discard threaded_irq_top_half }
    ∷ record { context = process; source = irq_line; body = discard threaded_irq_bottom_half }
    ∷ []

abbrev pub threaded_irq_sample : Sample Globals
threaded_irq_sample = record {
  initial = initial;
  init = threaded_irq_module_init;
  exit = threaded_irq_module_exit;
  callbacks = callbacks;
  interrupts = callbacks;
  held = held;
}
