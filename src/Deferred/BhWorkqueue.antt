-- ===== src/Deferred/BhWorkqueue.antt =====
-- interrupts/deferred/bh_workqueue.c: a BH workqueue bottom half, in softirq context.
pub mod Lifecycle
use linux_kernel_samples.Base.{
  ℕ, String, Bool, true, false, not, List, [], ◌∷◌, ℤ, pos, negsuc, is_err, is_zero, if◌then◌else◌,
}
use linux_kernel_samples.Kernel.{
  gfp_atomic, gfp_kernel, irq_none, irq_handled, irq_wake_thread, enodev, enomem, sim_irq_lines,
  sim_irq_hwirq, Call, hardirq, softirq, process, info, warn, err, M, pure, ◌>>=◌, ◌>>◌, invoke,
  perform, printk, pr_info, pr_context, get, modify,
}
use linux_kernel_samples.Kernel.Contract.{Resource, irq_line, works}
use linux_kernel_samples.Sample.{Callback, discard, Sample}

pub record Globals : Type 0 where
  pub gs_sim_domain : ℤ
  pub gs_bh_wq : ℤ
  pub gs_virq : ℤ

pub bh_workqueue_bottom_half : M Globals (Unit {0})
bh_workqueue_bottom_half = do
  pr_context "bottom half"
  buf ← invoke (Call.kmalloc 64 gfp_atomic)
  if is_zero buf then printk err "GFP_ATOMIC kmalloc failed" [] else do
    perform (Call.kfree buf)
    pr_info "GFP_ATOMIC kmalloc ok; a BH work runs in softirq, so sleeping is still forbidden"

pub bh_workqueue_top_half : M Globals ℤ
bh_workqueue_top_half = do
  pr_context "top half"
  pr_info "queueing the BH-workqueue bottom half"
  g ← get
  perform (Call.queue_work g.gs_bh_wq "bh_workqueue_bottom_half")
  pure irq_handled

err_destroy_wq : ℤ → M Globals ℤ
err_destroy_wq ret = do g ← get; perform (Call.destroy_workqueue g.gs_bh_wq); pure ret

err_remove_sim : ℤ → M Globals ℤ
unfolding err_destroy_wq
err_remove_sim ret = do
  g ← get
  perform (Call.irq_domain_remove_sim g.gs_sim_domain)
  err_destroy_wq ret

err_dispose_mapping : ℤ → M Globals ℤ
unfolding err_remove_sim
err_dispose_mapping ret = do
  g ← get
  perform (Call.irq_dispose_mapping g.gs_virq)
  err_remove_sim ret

err_free_irq : ℤ → M Globals ℤ
unfolding err_dispose_mapping
err_free_irq ret = do g ← get; perform (Call.free_irq g.gs_virq); err_dispose_mapping ret

-- `module_init` from `irq_domain_create_sim` on.
create_line : M Globals ℤ
create_line = do
  domain ← invoke (Call.irq_domain_create_sim sim_irq_lines)
  modify (λ g. record g { gs_sim_domain = domain })
  if is_err domain
      then (printk err "irq_domain_create_sim failed: %d" (domain ∷ []) >> err_destroy_wq domain)
      else do
        virq ← invoke (Call.irq_create_mapping domain sim_irq_hwirq)
        modify (λ g. record g { gs_virq = virq })
        if is_zero virq
            then (printk err "irq_create_mapping failed" [] >> err_remove_sim enodev)
            else do
              ret ← invoke (Call.request_irq virq "bh_workqueue_top_half" "bh_workqueue")
              if not (is_zero ret)
                  then (printk err "request_irq failed: %d" (ret ∷ []) >> err_dispose_mapping ret)
                  else do
                    ret ← invoke (Call.raise_irq virq)
                    if not (is_zero ret)
                        then (printk err "failed to raise the simulated irq: %d" (ret ∷ [])
                            >> err_free_irq ret)
                        else do pr_info "loaded"; pure (pos 0)

pub bh_workqueue_module_init : M Globals ℤ
bh_workqueue_module_init = do
  pr_context "init"
  wq ← invoke (Call.alloc_workqueue "bh_workqueue" true)
  modify (λ g. record g { gs_bh_wq = wq })
  if is_zero wq then (printk err "alloc_workqueue failed" [] >> pure enomem) else do create_line

pub bh_workqueue_module_exit : M Globals (Unit {0})
bh_workqueue_module_exit = do
  pr_context "exit"
  g ← get
  perform (Call.free_irq g.gs_virq)
  perform (Call.irq_dispose_mapping g.gs_virq)
  perform (Call.irq_domain_remove_sim g.gs_sim_domain)
  perform (Call.destroy_workqueue g.gs_bh_wq)
  pr_info "unloaded"

-- What the loaded module holds, the newest first.
abbrev pub held : Globals → List Resource
held g =
    Resource.irq g.gs_virq
    ∷ Resource.mapping g.gs_virq
    ∷ Resource.domain g.gs_sim_domain
    ∷ Resource.workqueue g.gs_bh_wq
    ∷ []

abbrev pub initial : Globals
initial = record { gs_sim_domain = pos 0; gs_bh_wq = pos 0; gs_virq = pos 0 }

-- The callbacks, with the contexts that the kernel runs them in and what they are registered by.
abbrev pub callbacks : List (Callback Globals)
callbacks =
    record { context = hardirq; source = irq_line; body = discard bh_workqueue_top_half }
    ∷ record { context = softirq; source = works; body = bh_workqueue_bottom_half }
    ∷ []

abbrev pub bh_workqueue_sample : Sample Globals
bh_workqueue_sample = record {
  initial = initial;
  init = bh_workqueue_module_init;
  exit = bh_workqueue_module_exit;
  callbacks = callbacks;
  interrupts = callbacks;
  held = held;
}
