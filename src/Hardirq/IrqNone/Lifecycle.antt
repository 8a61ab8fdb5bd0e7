-- ===== src/Hardirq/IrqNone/Lifecycle.antt =====
-- The proofs that `irq_none` keeps the contract of the interfaces it calls.
use linux_kernel_samples.Base.{
  ℤ, is_zero, ◌≡◌, refl, true, false, [], ◌∷◌, List, arith, same_int_refl,
}
use linux_kernel_samples.Kernel.{hardirq, Trace, Kernel, quiet, Returns}
use linux_kernel_samples.Kernel.Contract.{ledger, Resource, irq_line}
use linux_kernel_samples.Sample.{Action, history, is_live, interrupted, later_state, later_trace}
use linux_kernel_samples.Sample.Blame.{load_error, blame}
use linux_kernel_samples.Sample.Interrupts.{Stays, Holds, Frame, AllKeepHeld, safe_at, later-Kept}
use linux_kernel_samples.Sample.Errors.{Reports}
use linux_kernel_samples.Sample.Contract.{
  held_after, Always, IsSound, ObeysContract, history-obeys, ReportsAfter, history-ReportsAfter,
  discard-KeepsHeld,
}
use linux_kernel_samples.Hardirq.IrqNone.{
  Globals, irq_none_top_half, err_free_irq, err_dispose_mapping, err_remove_sim,
  irq_none_module_init, irq_none_module_exit, held, callbacks, initial, irq_none_sample,
}

-- The callbacks write no variable, and call nothing that must be held.
abbrev frame : Frame Globals
frame = record { strict = true; Inv = Always; core = λ g. g; safe = λ g rs. true }

irq_none_top_half-Keeps :
    (k : Kernel) (g : Globals) (t : Trace) (rs : List Resource)
    → Always g
    → frame.safe g rs ≡ true
    → is_live irq_line rs ≡ true
    → Holds (hardirq ∷ []) rs t
    → Returns
        (λ _ g' t'. Always g' × (g' ≡ g) × Stays (hardirq ∷ []) rs t t')
        (irq_none_top_half (quiet k) g t)
unfolding irq_none_top_half
irq_none_top_half-Keeps k g t rs i safe live h = grind (arith, same_int_refl, blame)

callbacks-KeepHeld : AllKeepHeld frame callbacks
callbacks-KeepHeld =
    (discard-KeepsHeld frame hardirq irq_line irq_none_top_half irq_none_top_half-Keeps, tt)

module _ (k : Kernel) (g : Globals) (t : Trace) (i : Always g)
    (safe : safe_at frame g (ledger t) ≡ true) where
  same_state : later_state k callbacks g t ≡ g
  same_state = (later-Kept frame k callbacks g t callbacks-KeepHeld i safe).same_core

  same_ledger : ledger (later_trace k callbacks g t) ≡ ledger t
  same_ledger = (later-Kept frame k callbacks g t callbacks-KeepHeld i safe).same_ledger

  same_error : load_error (later_trace k callbacks g t) ≡ load_error t
  same_error = (later-Kept frame k callbacks g t callbacks-KeepHeld i safe).same_error

ruleset calls = (arith, same_int_refl, same_state, same_ledger, same_error, blame)

-- What a load leaves behind: all that the module holds, or nothing.
abbrev Settled : ℤ → Globals → Trace → Type 0
Settled ret g t = Always g × Holds [] (held_after irq_none_sample ret g) t × (ret ≡ load_error t)

module _ (k : Kernel) (ret : ℤ) (g : Globals) (t : Trace) (failed : is_zero ret ≡ false)
    (i : Always g) (told : ret ≡ load_error t) where
  err_free_irq-Settled :
      Holds [] (held g) t → Returns Settled (err_free_irq ret (interrupted k callbacks) g t)
  unfolding err_free_irq
  err_free_irq-Settled h = grind calls

  err_dispose_mapping-Settled :
      Holds [] (Resource.mapping g.gs_virq ∷ Resource.domain g.gs_sim_domain ∷ []) t
      → Returns Settled (err_dispose_mapping ret (interrupted k callbacks) g t)
  unfolding err_dispose_mapping
  err_dispose_mapping-Settled h = grind calls

  err_remove_sim-Settled :
      Holds [] (Resource.domain g.gs_sim_domain ∷ []) t
      → Returns Settled (err_remove_sim ret (interrupted k callbacks) g t)
  unfolding err_remove_sim
  err_remove_sim-Settled h = grind calls

module _ (k : Kernel) (g : Globals) (t : Trace) (i : Always g) where
  init-Settled :
      Holds [] [] t → Returns Settled (irq_none_module_init (interrupted k callbacks) g t)
  unfolding irq_none_module_init
  init-Settled h =
      grind (calls, err_free_irq-Settled, err_dispose_mapping-Settled, err_remove_sim-Settled)

  exit-Holds :
      Holds [] (held g) t
      → Returns (λ _ g' t'. Holds [] [] t') (irq_none_module_exit (interrupted k callbacks) g t)
  unfolding irq_none_module_exit
  exit-Holds h = grind calls

sound : IsSound irq_none_sample frame
sound = record {
  init_law = λ k t h. init-Settled k initial t tt h;
  exit_law = λ k g t i h. exit-Holds k g t i h;
  callbacks_law = callbacks-KeepHeld;
  held_core = λ g. refl;
  held_safe = λ g. grind (arith, same_int_refl);
}

-- Whatever the kernel answers, in whatever order `irq_none` is loaded, its callbacks run and it is
-- unloaded, and however often registered callbacks interrupt the calls of a load and of an
-- unload: its trace obeys the contract, and it holds its resources while loaded and none otherwise.
pub irq_none-obeys :
    (k : Kernel) (actions : List Action)
    → ObeysContract irq_none_sample (history k irq_none_sample actions)
irq_none-obeys k = history-obeys k irq_none_sample frame sound

-- In the same histories, the next load returns the first error of its own calls.
pub irq_none-ReportsAfter :
    (k : Kernel) (actions : List Action) → ReportsAfter k actions irq_none_sample
irq_none-ReportsAfter k = history-ReportsAfter k irq_none_sample frame sound

pub irq_none-Reports : (k : Kernel) → Reports k irq_none_sample
unfolding irq_none_module_init err_free_irq
irq_none-Reports k = grind arith
