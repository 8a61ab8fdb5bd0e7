-- ===== src/Deferred/NetRxSoftirq/Lifecycle.antt =====
-- The proofs that `net_rx_softirq` keeps the contract of the interfaces it calls.
use linux_kernel_samples.Base.{◌≡◌, refl, true, Option, [], ◌∷◌, List, arith}
use linux_kernel_samples.Kernel.{softirq, Trace, Kernel, quiet, Returns}
use linux_kernel_samples.Kernel.Contract.{ledger, Resource, net_hooks}
use linux_kernel_samples.Sample.{Action, history, is_live, interrupted, later_trace}
use linux_kernel_samples.Sample.Blame.{load_error, blame}
use linux_kernel_samples.Sample.Interrupts.{Stays, Holds, Frame, AllKeepHeld, safe_at, later-Kept}
use linux_kernel_samples.Sample.Errors.{Reports}
use linux_kernel_samples.Sample.Contract.{
  held_after, Always, IsSound, ObeysContract, history-obeys, ReportsAfter, history-ReportsAfter,
  discard-KeepsHeld,
}
use linux_kernel_samples.Deferred.NetRxSoftirq.{
  Globals, SkBuff, net_rx_softirq_hook, net_rx_softirq_module_init, net_rx_softirq_module_exit,
  held, initial, hooks, net_rx_softirq_sample,
}

-- The hook writes both variables, and needs nothing.
abbrev frame : Frame Globals
frame = record { strict = true; Inv = Always; core = λ g. initial; safe = λ g rs. true }

hook-Keeps :
    (skb : Option SkBuff) (k : Kernel) (g : Globals) (t : Trace) (rs : List Resource)
    → Always g
    → true ≡ true
    → is_live net_hooks rs ≡ true
    → Holds (softirq ∷ []) rs t
    → Returns
        (λ _ g' t'. Always g' × (initial ≡ initial) × Stays (softirq ∷ []) rs t t')
        (net_rx_softirq_hook true skb (quiet k) g t)
unfolding net_rx_softirq_hook
hook-Keeps skb k g t rs i safe live h = grind (arith, blame)

hooks-KeepHeld : (skbs : List (Option SkBuff)) → AllKeepHeld frame (hooks skbs)
hooks-KeepHeld [] = tt
hooks-KeepHeld (skb ∷ skbs) = (
  discard-KeepsHeld frame softirq net_hooks (net_rx_softirq_hook true skb) (hook-Keeps skb),
  hooks-KeepHeld skbs,
)

module _ (skbs : List (Option SkBuff)) (k : Kernel) (g : Globals) (t : Trace)
    (safe : safe_at frame g (ledger t) ≡ true) where
  same_ledger : ledger (later_trace k (hooks skbs) g t) ≡ ledger t
  same_ledger = (later-Kept frame k (hooks skbs) g t (hooks-KeepHeld skbs) tt safe).same_ledger

  same_error : load_error (later_trace k (hooks skbs) g t) ≡ load_error t
  same_error = (later-Kept frame k (hooks skbs) g t (hooks-KeepHeld skbs) tt safe).same_error

module _ (skbs : List (Option SkBuff)) (k : Kernel) (g : Globals) (t : Trace) where
  init-Holds :
      Holds [] [] t
      → Returns
          (λ ret g' t'.
            Always g'
            × Holds [] (held_after (net_rx_softirq_sample skbs) ret g') t'
            × (ret ≡ load_error t'))
          (net_rx_softirq_module_init (interrupted k (hooks skbs)) g t)
  unfolding net_rx_softirq_module_init
  init-Holds h = grind (arith, same_ledger skbs, same_error skbs, blame)

  exit-Holds :
      Holds [] (held g) t
      → Returns
          (λ _ g' t'. Holds [] [] t')
          (net_rx_softirq_module_exit (interrupted k (hooks skbs)) g t)
  unfolding net_rx_softirq_module_exit
  exit-Holds h = grind (arith, same_ledger skbs)

sound : (skbs : List (Option SkBuff)) → IsSound (net_rx_softirq_sample skbs) frame
sound skbs = record {
  init_law = λ k t h. init-Holds skbs k _ t h;
  exit_law = λ k g t i h. exit-Holds skbs k g t h;
  callbacks_law = hooks-KeepHeld skbs;
  held_core = λ g. refl;
  held_safe = λ g. refl;
}

-- Whatever the kernel answers, for any packets, in whatever order `net_rx_softirq` is loaded, its hook
-- runs and it is unloaded, and however often the registered hook interrupts the calls of a load and
-- of an unload: its trace obeys the contract, and it holds its hook while loaded and not otherwise.
pub net_rx_softirq-obeys :
    (skbs : List (Option SkBuff)) (k : Kernel) (actions : List Action)
    → ObeysContract (net_rx_softirq_sample skbs) (history k (net_rx_softirq_sample skbs) actions)
net_rx_softirq-obeys skbs k = history-obeys k (net_rx_softirq_sample skbs) frame (sound skbs)

-- In the same histories, the next load returns the first error of its own calls.
pub net_rx_softirq-ReportsAfter :
    (skbs : List (Option SkBuff)) (k : Kernel) (actions : List Action)
    → ReportsAfter k actions (net_rx_softirq_sample skbs)
net_rx_softirq-ReportsAfter skbs k =
    history-ReportsAfter k (net_rx_softirq_sample skbs) frame (sound skbs)

pub net_rx_softirq-Reports :
    (skbs : List (Option SkBuff)) → (k : Kernel) → Reports k (net_rx_softirq_sample skbs)
unfolding net_rx_softirq_module_init
net_rx_softirq-Reports skbs k = grind arith
