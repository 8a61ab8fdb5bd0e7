-- ===== src/Deferred/WorkqueueSample/Lifecycle.antt =====
-- The proofs that `workqueue_sample` keeps the contract of the interfaces it calls.
use linux_kernel_samples.Base.{
  ℤ, pos, is_zero, ◌≡◌, refl, true, false, not, ◌||◌, ◌&&◌, [], ◌∷◌, List, arith, same_int_refl,
}
use linux_kernel_samples.Kernel.{hardirq, process, Trace, Kernel, quiet, Returns}
use linux_kernel_samples.Kernel.Contract.{ledger, Resource, irq_line, works, holds}
use linux_kernel_samples.Sample.{Action, history, is_live, interrupted, later_state, later_trace}
use linux_kernel_samples.Sample.Blame.{load_error, blame}
use linux_kernel_samples.Sample.Interrupts.{Stays, Holds, Frame, AllKeepHeld, safe_at, later-Kept}
use linux_kernel_samples.Sample.Errors.{Reports}
use linux_kernel_samples.Sample.Contract.{
  held_after, Always, IsSound, ObeysContract, history-obeys, ReportsAfter, history-ReportsAfter,
  discard-KeepsHeld,
}
use linux_kernel_samples.Deferred.WorkqueueSample.{
  Globals, workqueue_sample_top_half, workqueue_sample_bottom_half, err_free_irq,
  err_dispose_mapping, err_remove_sim, err_destroy_wq, create_line, workqueue_sample_module_init,
  workqueue_sample_module_exit, held, callbacks, initial, workqueue_sample_sample,
}

-- While the irq is requested, the workqueue is there; no spinlock is held.
abbrev frame : Frame Globals
frame = record {
  strict = true;
  Inv = Always;
  core = λ g. g;
  safe = λ g rs.
      (not (is_live irq_line rs) || holds (Resource.workqueue g.gs_proc_wq) rs)
      && not (holds Resource.spinlock rs);
}

workqueue_sample_top_half-Keeps :
    (k : Kernel) (g : Globals) (t : Trace) (rs : List Resource)
    → Always g
    → frame.safe g rs ≡ true
    → is_live irq_line rs ≡ true
    → Holds (hardirq ∷ []) rs t
    → Returns
        (λ _ g' t'. Always g' × (g' ≡ g) × Stays (hardirq ∷ []) rs t t')
        (workqueue_sample_top_half (quiet k) g t)
unfolding workqueue_sample_top_half
workqueue_sample_top_half-Keeps k g t rs i safe live h = grind (arith, same_int_refl, blame)

workqueue_sample_bottom_half-Keeps :
    (k : Kernel) (g : Globals) (t : Trace) (rs : List Resource)
    → Always g
    → frame.safe g rs ≡ true
    → is_live works rs ≡ true
    → Holds (process ∷ []) rs t
    → Returns
        (λ _ g' t'. Always g' × (g' ≡ g) × Stays (process ∷ []) rs t t')
        (workqueue_sample_bottom_half (quiet k) g t)
unfolding workqueue_sample_bottom_half
workqueue_sample_bottom_half-Keeps k g t rs i safe live h = grind (arith, same_int_refl, blame)

callbacks-KeepHeld : AllKeepHeld frame callbacks
callbacks-KeepHeld = (
  discard-KeepsHeld frame hardirq irq_line workqueue_sample_top_half
      workqueue_sample_top_half-Keeps,
  (workqueue_sample_bottom_half-Keeps, tt),
)

module _ (k : Kernel) (g : Globals) (t : Trace) (i : Always g)
    (safe : safe_at frame g (ledger t) ≡ true) where
  same_state : later_state k callbacks g t ≡ g
  same_state = (later-Kept frame k callbacks g t callbacks-KeepHeld i safe).same_core

  same_ledger : ledger (later_trace k callbacks g t) ≡ ledger t
  same_ledger = (later-Kept frame k callbacks g t callbacks-KeepHeld i safe).same_ledger

  same_error : load_error (later_trace k callbacks g t) ≡ load_error t
  same_error = (later-Kept frame k callbacks g t callbacks-KeepHeld i safe).same_error

ruleset calls = (arith, same_int_refl, same_state, same_ledger, same_error, blame)

-- What a load leaves behind: all that the module holds, or nothing.
abbrev Settled : ℤ → Globals → Trace → Type 0
Settled ret g t =
    Always g × Holds [] (held_after workqueue_sample_sample ret g) t × (ret ≡ load_error t)

module _ (k : Kernel) (ret : ℤ) (g : Globals) (t : Trace) (failed : is_zero ret ≡ false)
    (i : Always g) (told : ret ≡ load_error t) where
  err_free_irq-Settled :
      Holds [] (held g) t → Returns Settled (err_free_irq ret (interrupted k callbacks) g t)
  unfolding err_free_irq
  err_free_irq-Settled h = grind calls

  err_dispose_mapping-Settled :
      Holds []
        (Resource.mapping g.gs_virq
          ∷ Resource.domain g.gs_sim_domain
          ∷ Resource.workqueue g.gs_proc_wq
          ∷ [])
        t
      → Returns Settled (err_dispose_mapping ret (interrupted k callbacks) g t)
  unfolding err_dispose_mapping
  err_dispose_mapping-Settled h = grind calls

  err_remove_sim-Settled :
      Holds [] (Resource.domain g.gs_sim_domain ∷ Resource.workqueue g.gs_proc_wq ∷ []) t
      → Returns Settled (err_remove_sim ret (interrupted k callbacks) g t)
  unfolding err_remove_sim
  err_remove_sim-Settled h = grind calls

  err_destroy_wq-Settled :
      Holds [] (Resource.workqueue g.gs_proc_wq ∷ []) t
      → Returns Settled (err_destroy_wq ret (interrupted k callbacks) g t)
  unfolding err_destroy_wq
  err_destroy_wq-Settled h = grind calls

module _ (k : Kernel) (g : Globals) (t : Trace) (i : Always g) where
  create_line-Settled :
      load_error t ≡ pos 0
      → Holds [] (Resource.workqueue g.gs_proc_wq ∷ []) t
      → Returns Settled (create_line (interrupted k callbacks) g t)
  unfolding create_line
  create_line-Settled clean h = grind (
    calls, err_free_irq-Settled, err_dispose_mapping-Settled, err_remove_sim-Settled,
    err_destroy_wq-Settled,
  )

module _ (k : Kernel) (g : Globals) (t : Trace) (i : Always g) where
  init-Settled :
      Holds [] [] t → Returns Settled (workqueue_sample_module_init (interrupted k callbacks) g t)
  unfolding workqueue_sample_module_init
  init-Settled h = grind (calls, create_line-Settled)

  exit-Holds :
      Holds [] (held g) t
      → Returns
          (λ _ g' t'. Holds [] [] t')
          (workqueue_sample_module_exit (interrupted k callbacks) g t)
  unfolding workqueue_sample_module_exit
  exit-Holds h = grind calls

sound : IsSound workqueue_sample_sample frame
sound = record {
  init_law = λ k t h. init-Settled k initial t tt h;
  exit_law = λ k g t i h. exit-Holds k g t i h;
  callbacks_law = callbacks-KeepHeld;
  held_core = λ g. refl;
  held_safe = λ g. grind (arith, same_int_refl);
}

-- Whatever the kernel answers, in whatever order `workqueue_sample` is loaded, its callbacks run and it is
-- unloaded, and however often registered callbacks interrupt the calls of a load and of an
-- unload: its trace obeys the contract, and it holds its resources while loaded and none otherwise.
pub workqueue_sample-obeys :
    (k : Kernel) (actions : List Action)
    → ObeysContract workqueue_sample_sample (history k workqueue_sample_sample actions)
workqueue_sample-obeys k = history-obeys k workqueue_sample_sample frame sound

-- In the same histories, the next load returns the first error of its own calls.
pub workqueue_sample-ReportsAfter :
    (k : Kernel) (actions : List Action) → ReportsAfter k actions workqueue_sample_sample
workqueue_sample-ReportsAfter k = history-ReportsAfter k workqueue_sample_sample frame sound

pub workqueue_sample-Reports : (k : Kernel) → Reports k workqueue_sample_sample
unfolding workqueue_sample_module_init create_line err_free_irq
workqueue_sample-Reports k = grind arith
