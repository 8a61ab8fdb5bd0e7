-- ===== src/Hardirq/DisableIrq/Deliver.antt =====
-- What the handler leaves of the variables, however often it interrupts a call.
use linux_kernel_samples.Base.{
  ℕ, ◌%◌, ◌^◌, ◌+◌, ◌<◌, ◌≡◌, refl, ap, ℤ, Bool, true, false, [], ◌∷◌, List, arith,
}
use linux_kernel_samples.Kernel.{Context, hardirq, softirq, Trace, Kernel, quiet, Returns}
use linux_kernel_samples.Kernel.Contract.{ledger, Resource, irq_line}
use linux_kernel_samples.Sample.{is_live, later_state, later_trace}
use linux_kernel_samples.Sample.Blame.{load_error, blame}
use linux_kernel_samples.Sample.Interrupts.{
  Stays, Holds, Frame, AllKeepHeld, Kept, safe_at, later-Kept,
}
use linux_kernel_samples.Sample.Contract.{discard-KeepsHeld}
use linux_kernel_samples.Hardirq.DisableIrq.{Globals, disable_irq_top_half, callbacks}

abbrev pub Small : Globals → Type 0
Small g = g.gs_handler_run_count < 2 ^ 32

-- The handler writes its counter only, and calls nothing.
abbrev pub frame : Frame Globals
frame = record {
  strict = true;
  Inv = Small;
  core = λ g. record g { gs_handler_run_count = 0 };
  safe = λ g rs. true;
}

top_half-Keeps :
    (c : Context) (k : Kernel) (g : Globals) (t : Trace) (rs : List Resource)
    → Small g
    → true ≡ true
    → is_live irq_line rs ≡ true
    → Holds (c ∷ []) rs t
    → Returns
        (λ _ g' t'. Small g' × (frame.core g' ≡ frame.core g) × Stays (c ∷ []) rs t t')
        (disable_irq_top_half (quiet k) g t)
unfolding disable_irq_top_half
top_half-Keeps c k g t rs i _ live h = (omega arith, refl, (simp h, simp blame))

pub callbacks-KeepHeld : AllKeepHeld frame callbacks
callbacks-KeepHeld = (
  discard-KeepsHeld frame hardirq irq_line disable_irq_top_half (top_half-Keeps hardirq),
  (discard-KeepsHeld frame softirq irq_line disable_irq_top_half (top_half-Keeps softirq), tt),
)

module _ (k : Kernel) (g : Globals) (t : Trace) (i : Small g)
    (safe : safe_at frame g (ledger t) ≡ true) where
  kept : Kept frame g t (later_state k callbacks g t) (later_trace k callbacks g t)
  kept = later-Kept frame k callbacks g t callbacks-KeepHeld i safe

  pub same_domain : (later_state k callbacks g t).gs_sim_domain ≡ g.gs_sim_domain
  same_domain = ap (λ (x : Globals). x.gs_sim_domain) kept.same_core

  pub same_virq : (later_state k callbacks g t).gs_virq ≡ g.gs_virq
  same_virq = ap (λ (x : Globals). x.gs_virq) kept.same_core

  pub still-Small : Small (later_state k callbacks g t)
  still-Small = kept.inv

  pub same_ledger : ledger (later_trace k callbacks g t) ≡ ledger t
  same_ledger = kept.same_ledger

  pub same_error : load_error (later_trace k callbacks g t) ≡ load_error t
  same_error = kept.same_error

pub ruleset calls = (arith, same_domain, same_virq, still-Small, same_ledger, same_error, blame)
