-- ===== src/Deferred/Tasklet/Lifecycle.antt =====
-- The proofs that `tasklet` keeps the contract of the interfaces it calls.
use linux_kernel_samples.Base.{
  ℤ, is_zero, ◌≡◌, refl, true, false, not, ◌||◌, [], ◌∷◌, List, arith, same_int_refl,
}
use linux_kernel_samples.Kernel.{hardirq, softirq, Trace, Kernel, quiet, Returns}
use linux_kernel_samples.Kernel.Contract.{ledger, Resource, irq_line, tasklets, holds}
use linux_kernel_samples.Sample.{Action, history, is_live, interrupted, later_state, later_trace}
use linux_kernel_samples.Sample.Blame.{load_error, blame}
use linux_kernel_samples.Sample.Interrupts.{Stays, Holds, Frame, AllKeepHeld, safe_at, later-Kept}
use linux_kernel_samples.Sample.Errors.{Reports}
use linux_kernel_samples.Sample.Contract.{
  held_after, Always, IsSound, ObeysContract, history-obeys, ReportsAfter, history-ReportsAfter,
  discard-KeepsHeld,
}
use linux_kernel_samples.Deferred.Tasklet.{
  Globals, tasklet_top_half, tasklet_bottom_half, err_free_irq, err_dispose_mapping, err_remove_sim,
  err_kill_tasklet, tasklet_module_init, tasklet_module_exit, held, callbacks, initial,
  tasklet_sample,
}

-- While the irq is requested, the tasklet is set up.
abbrev frame : Frame Globals
frame = record {
  strict = true;
  Inv = Always;
  core = λ g. g;
  safe = λ g rs. not (is_live irq_line rs) || holds Resource.tasklet rs;
}

tasklet_top_half-Keeps :
    (k : Kernel) (g : Globals) (t : Trace) (rs : List Resource)
    → Always g
    → frame.safe g rs ≡ true
    → is_live irq_line rs ≡ true
    → Holds (hardirq ∷ []) rs t
    → Returns
        (λ _ g' t'. Always g' × (g' ≡ g) × Stays (hardirq ∷ []) rs t t')
        (tasklet_top_half (quiet k) g t)
unfolding tasklet_top_half
tasklet_top_half-Keeps k g t rs i safe live h = grind (arith, same_int_refl, blame)

tasklet_bottom_half-Keeps :
    (k : Kernel) (g : Globals) (t : Trace) (rs : List Resource)
    → Always g
    → frame.safe g rs ≡ true
    → is_live tasklets rs ≡ true
    → Holds (softirq ∷ []) rs t
    → Returns
        (λ _ g' t'. Always g' × (g' ≡ g) × Stays (softirq ∷ []) rs t t')
        (tasklet_bottom_half (quiet k) g t)
unfolding tasklet_bottom_half
tasklet_bottom_half-Keeps k g t rs i safe live h = grind (arith, same_int_refl, blame)

callbacks-KeepHeld : AllKeepHeld frame callbacks
callbacks-KeepHeld = (
  discard-KeepsHeld frame hardirq irq_line tasklet_top_half tasklet_top_half-Keeps,
  (tasklet_bottom_half-Keeps, tt),
)

module _ (k : Kernel) (g : Globals) (t : Trace) (i : Always g)
    (safe : safe_at frame g (ledger t) ≡ true) where
  same_state : later_state k callbacks g t ≡ g
  same_state = (later-Kept frame k callbacks g t callbacks-KeepHeld i safe).same_core

  same_ledger : ledger (later_trace k callbacks g t) ≡ ledger t
  same_ledger = (later-Kept frame k callbacks g t callbacks-KeepHeld i safe).same_ledger

  same_error : load_error (later_trace k callbacks g t) ≡ load_error t
  same_error = (later-Kept frame k callbacks g t callbacks-KeepHeld i safe).same_error

ruleset calls = (arith, same_int_refl, same_state, same_ledger, same_error, blame)

-- What a load leaves behind: all that the module holds, or nothing.
abbrev Settled : ℤ → Globals → Trace → Type 0
Settled ret g t = Always g × Holds [] (held_after tasklet_sample ret g) t × (ret ≡ load_error t)

module _ (k : Kernel) (ret : ℤ) (g : Globals) (t : Trace) (failed : is_zero ret ≡ false)
    (i : Always g) (told : ret ≡ load_error t) where
  err_free_irq-Settled :
      Holds [] (held g) t → Returns Settled (err_free_irq ret (interrupted k callbacks) g t)
  unfolding err_free_irq
  err_free_irq-Settled h = grind calls

  err_dispose_mapping-Settled :
      Holds []
        (Resource.mapping g.gs_virq ∷ Resource.domain g.gs_sim_domain ∷ Resource.tasklet ∷ [])
        t
      → Returns Settled (err_dispose_mapping ret (interrupted k callbacks) g t)
  unfolding err_dispose_mapping
  err_dispose_mapping-Settled h = grind calls

  err_remove_sim-Settled :
      Holds [] (Resource.domain g.gs_sim_domain ∷ Resource.tasklet ∷ []) t
      → Returns Settled (err_remove_sim ret (interrupted k callbacks) g t)
  unfolding err_remove_sim
  err_remove_sim-Settled h = grind calls

  err_kill_tasklet-Settled :
      Holds [] (Resource.tasklet ∷ []) t
      → Returns Settled (err_kill_tasklet ret (interrupted k callbacks) g t)
  unfolding err_kill_tasklet
  err_kill_tasklet-Settled h = grind calls

module _ (k : Kernel) (g : Globals) (t : Trace) (i : Always g) where
  init-Settled : Holds [] [] t → Returns Settled (tasklet_module_init (interrupted k callbacks) g t)
  unfolding tasklet_module_init
  init-Settled h = grind (
    calls, err_free_irq-Settled, err_dispose_mapping-Settled, err_remove_sim-Settled,
    err_kill_tasklet-Settled,
  )

  exit-Holds :
      Holds [] (held g) t
      → Returns (λ _ g' t'. Holds [] [] t') (tasklet_module_exit (interrupted k callbacks) g t)
  unfolding tasklet_module_exit
  exit-Holds h = grind calls

sound : IsSound tasklet_sample frame
sound = record {
  init_law = λ k t h. init-Settled k initial t tt h;
  exit_law = λ k g t i h. exit-Holds k g t i h;
  callbacks_law = callbacks-KeepHeld;
  held_core = λ g. refl;
  held_safe = λ g. grind (arith, same_int_refl);
}

-- Whatever the kernel answers, in whatever order `tasklet` is loaded, its callbacks run and it is
-- unloaded, and however often registered callbacks interrupt the calls of a load and of an
-- unload: its trace obeys the contract, and it holds its resources while loaded and none otherwise.
pub tasklet-obeys :
    (k : Kernel) (actions : List Action)
    → ObeysContract tasklet_sample (history k tasklet_sample actions)
tasklet-obeys k = history-obeys k tasklet_sample frame sound

-- In the same histories, the next load returns the first error of its own calls.
pub tasklet-ReportsAfter :
    (k : Kernel) (actions : List Action) → ReportsAfter k actions tasklet_sample
tasklet-ReportsAfter k = history-ReportsAfter k tasklet_sample frame sound

pub tasklet-Reports : (k : Kernel) → Reports k tasklet_sample
unfolding tasklet_module_init err_free_irq
tasklet-Reports k = grind arith
