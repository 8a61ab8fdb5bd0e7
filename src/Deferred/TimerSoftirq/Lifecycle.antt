-- ===== src/Deferred/TimerSoftirq/Lifecycle.antt =====
-- The proofs that `timer_softirq` keeps the contract of the interfaces it calls.
use linux_kernel_samples.Base.{◌≡◌, refl, true, not, ◌||◌, [], ◌∷◌, List, arith}
use linux_kernel_samples.Kernel.{softirq, Trace, Kernel, quiet, Returns}
use linux_kernel_samples.Kernel.Contract.{ledger, Resource, timers, holds}
use linux_kernel_samples.Sample.{Action, history, is_live, interrupted, later_trace}
use linux_kernel_samples.Sample.Blame.{load_error, blame}
use linux_kernel_samples.Sample.Interrupts.{Stays, Holds, Frame, AllKeepHeld, safe_at, later-Kept}
use linux_kernel_samples.Sample.Errors.{Reports}
use linux_kernel_samples.Sample.Contract.{
  held_after, Always, IsSound, ObeysContract, history-obeys, ReportsAfter, history-ReportsAfter,
}
use linux_kernel_samples.Deferred.TimerSoftirq.{
  Globals, timer_softirq_bottom_half, timer_softirq_module_init, timer_softirq_module_exit, held,
  initial, callbacks, timer_softirq_sample,
}

-- The callback writes the only variable.
abbrev frame : Frame Globals
frame = record {
  strict = true;
  Inv = Always;
  core = λ g. initial;
  safe = λ g rs. not (is_live timers rs) || holds Resource.timer rs;
}

bottom_half-Keeps :
    (k : Kernel) (g : Globals) (t : Trace) (rs : List Resource)
    → Always g
    → frame.safe g rs ≡ true
    → is_live timers rs ≡ true
    → Holds (softirq ∷ []) rs t
    → Returns
        (λ _ g' t'. Always g' × (initial ≡ initial) × Stays (softirq ∷ []) rs t t')
        (timer_softirq_bottom_half (quiet k) g t)
unfolding timer_softirq_bottom_half
bottom_half-Keeps k g t rs i safe live h = grind (arith, blame)

callbacks-KeepHeld : AllKeepHeld frame callbacks
callbacks-KeepHeld = (bottom_half-Keeps, tt)

module _ (k : Kernel) (g : Globals) (t : Trace) (safe : safe_at frame g (ledger t) ≡ true) where
  same_ledger : ledger (later_trace k callbacks g t) ≡ ledger t
  same_ledger = (later-Kept frame k callbacks g t callbacks-KeepHeld tt safe).same_ledger

  same_error : load_error (later_trace k callbacks g t) ≡ load_error t
  same_error = (later-Kept frame k callbacks g t callbacks-KeepHeld tt safe).same_error

module _ (k : Kernel) (g : Globals) (t : Trace) where
  init-Holds :
      Holds [] [] t
      → Returns
          (λ ret g' t'.
            Always g'
            × Holds [] (held_after timer_softirq_sample ret g') t'
            × (ret ≡ load_error t'))
          (timer_softirq_module_init (interrupted k callbacks) g t)
  unfolding timer_softirq_module_init
  init-Holds h = grind (arith, same_ledger, same_error, blame)

  exit-Holds :
      Holds [] (held g) t
      → Returns
          (λ _ g' t'. Holds [] [] t')
          (timer_softirq_module_exit (interrupted k callbacks) g t)
  unfolding timer_softirq_module_exit
  exit-Holds h = grind (arith, same_ledger)

sound : IsSound timer_softirq_sample frame
sound = record {
  init_law = λ k t h. init-Holds k _ t h;
  exit_law = λ k g t i h. exit-Holds k g t h;
  callbacks_law = callbacks-KeepHeld;
  held_core = λ g. refl;
  held_safe = λ g. refl;
}

-- Whatever the kernel answers, in whatever order `timer_softirq` is loaded, its callback runs and it is
-- unloaded, and however often the registered callback interrupts the calls of a load and of an
-- unload: its trace obeys the contract, and it holds its timer while loaded and not otherwise.
pub timer_softirq-obeys :
    (k : Kernel) (actions : List Action)
    → ObeysContract timer_softirq_sample (history k timer_softirq_sample actions)
timer_softirq-obeys k = history-obeys k timer_softirq_sample frame sound

-- In the same histories, the next load returns the first error of its own calls.
pub timer_softirq-ReportsAfter :
    (k : Kernel) (actions : List Action) → ReportsAfter k actions timer_softirq_sample
timer_softirq-ReportsAfter k = history-ReportsAfter k timer_softirq_sample frame sound

pub timer_softirq-Reports : (k : Kernel) → Reports k timer_softirq_sample
unfolding timer_softirq_module_init
timer_softirq-Reports k = grind arith
