-- ===== src/Danger/SleepInHardirq.antt =====
-- interrupts/danger/sleep_in_hardirq_danger.c: a top half that sleeps when it is armed.
pub mod Armed
pub mod Keeps
pub mod Lifecycle
use linux_kernel_samples.Base.{
  ◌≡◌, ℕ, String, Bool, true, false, not, List, [], ◌∷◌, ℤ, pos, negsuc, is_err, is_zero,
  if◌then◌else◌,
}
use linux_kernel_samples.Kernel.{
  gfp_atomic, gfp_kernel, irq_none, irq_handled, irq_wake_thread, enodev, enomem, sim_irq_lines,
  sim_irq_hwirq, Call, hardirq, softirq, process, info, warn, err, M, pure, ◌>>=◌, ◌>>◌, invoke,
  perform, printk, pr_info, pr_context, get, modify,
}
use linux_kernel_samples.Kernel.Contract.{Resource, debugfs_files, irq_line}
use linux_kernel_samples.Sample.{Callback, discard, Sample}

pub record Globals : Type 0 where
  pub gs_sim_domain : ℤ
  pub gs_debug_dir : ℤ
  pub gs_debugfs_danger_enabled : Bool
  pub gs_virq : ℤ

pub hardirq_danger_top_half : M Globals ℤ
hardirq_danger_top_half = do
  pr_context "top half"
  g ← get
  if not g.gs_debugfs_danger_enabled
      then (printk warn "danger_enabled=0: skipping the illegal in-hardirq sleep (safe mock, no-op)"
            []
          >> pure irq_handled)
      else do
        printk warn "danger_enabled=1: about to sleep in hardirq context -- this is illegal" []
        perform (Call.msleep 100)
        printk warn "returned from the illegal sleep; the system may now be unstable" []
        pure irq_handled

pub trigger_write : ℕ → M Globals ℤ
trigger_write len = do
  g ← get
  ret ← invoke (Call.raise_irq g.gs_virq)
  if not (is_zero ret)
      then (printk err "failed to raise the simulated irq: %d" (ret ∷ []) >> pure ret)
      else pure (pos len)

err_remove_sim : ℤ → M Globals ℤ
err_remove_sim ret = do g ← get; perform (Call.irq_domain_remove_sim g.gs_sim_domain); pure ret

err_dispose_mapping : ℤ → M Globals ℤ
unfolding err_remove_sim
err_dispose_mapping ret = do
  g ← get
  perform (Call.irq_dispose_mapping g.gs_virq)
  err_remove_sim ret

err_free_irq : ℤ → M Globals ℤ
unfolding err_dispose_mapping
err_free_irq ret = do g ← get; perform (Call.free_irq g.gs_virq); err_dispose_mapping ret

-- The end of `module_init`, from `debugfs_create_dir` on.
create_controls : M Globals ℤ
unfolding err_free_irq
create_controls = do
  dir ← invoke (Call.debugfs_create_dir "sleep_in_hardirq_danger")
  modify (λ g. record g { gs_debug_dir = dir })
  if is_err dir
      then (printk err "debugfs unavailable (%d); cannot create danger controls" (dir ∷ [])
          >> err_free_irq dir)
      else do
        perform (Call.debugfs_create_bool "danger_enabled" dir)
        perform (Call.debugfs_create_file "trigger" dir)
        pr_info
            "loaded; set .../sleep_in_hardirq_danger/danger_enabled to 1 then write .../trigger for the illegal path; trigger alone is a safe mock"
        pure (pos 0)

pub sleep_in_hardirq_danger_module_init : M Globals ℤ
sleep_in_hardirq_danger_module_init = do
  pr_context "init"
  domain ← invoke (Call.irq_domain_create_sim sim_irq_lines)
  modify (λ g. record g { gs_sim_domain = domain })
  if is_err domain
      then (printk err "irq_domain_create_sim failed: %d" (domain ∷ []) >> pure domain)
      else do
        virq ← invoke (Call.irq_create_mapping domain sim_irq_hwirq)
        modify (λ g. record g { gs_virq = virq })
        if is_zero virq
            then (printk err "irq_create_mapping failed" [] >> err_remove_sim enodev)
            else do
              ret ←
                  invoke (Call.request_irq virq "hardirq_danger_top_half" "sleep_in_hardirq_danger")
              if not (is_zero ret)
                  then (printk err "request_irq failed: %d" (ret ∷ []) >> err_dispose_mapping ret)
                  else create_controls

pub sleep_in_hardirq_danger_module_exit : M Globals (Unit {0})
sleep_in_hardirq_danger_module_exit = do
  pr_context "exit"
  g ← get
  perform (Call.debugfs_remove g.gs_debug_dir)
  perform (Call.free_irq g.gs_virq)
  perform (Call.irq_dispose_mapping g.gs_virq)
  perform (Call.irq_domain_remove_sim g.gs_sim_domain)
  pr_info "unloaded"

-- What the loaded module holds, the newest first.
abbrev pub held : Globals → List Resource
held g =
    Resource.debugfs g.gs_debug_dir
    ∷ Resource.irq g.gs_virq
    ∷ Resource.mapping g.gs_virq
    ∷ Resource.domain g.gs_sim_domain
    ∷ []

abbrev pub initial : Globals
initial = record {
  gs_sim_domain = pos 0;
  gs_debug_dir = pos 0;
  gs_debugfs_danger_enabled = false;
  gs_virq = pos 0;
}

-- What debugfs does with the pointer that `debugfs_create_bool` got, on a write of this value.
abbrev pub store_danger_enabled : Bool → M Globals (Unit {0})
store_danger_enabled value = modify (λ g. record g { gs_debugfs_danger_enabled = value })

abbrev pub danger_writes : List Bool → List (Callback Globals)
danger_writes [] = []
danger_writes (value ∷ values) =
    record { context = process; source = debugfs_files; body = store_danger_enabled value }
    ∷ danger_writes values

-- The callbacks, with the contexts that the kernel runs them in and what they are registered by. The
-- values are those that are ever written to `danger_enabled`.
abbrev pub callbacks : List Bool → List (Callback Globals)
callbacks values =
    record { context = hardirq; source = irq_line; body = discard hardirq_danger_top_half }
    ∷ record { context = process; source = debugfs_files; body = discard (trigger_write 2) }
    ∷ danger_writes values

abbrev pub sleep_in_hardirq_danger_sample : List Bool → Sample Globals
sleep_in_hardirq_danger_sample values = record {
  initial = initial;
  init = sleep_in_hardirq_danger_module_init;
  exit = sleep_in_hardirq_danger_module_exit;
  callbacks = callbacks values;
  interrupts = callbacks values;
  held = held;
}
