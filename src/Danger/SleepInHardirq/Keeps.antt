-- ===== src/Danger/SleepInHardirq/Keeps.antt =====
-- The callbacks of `sleep_in_hardirq_danger` keep the contract, but for the sleep that it shows.
use linux_kernel_samples.Base.{
  Bool, ◌≡◌, refl, ap, true, false, not, ◌||◌, ◌&&◌, [], ◌∷◌, List, arith,
}
use linux_kernel_samples.Kernel.{hardirq, process, Trace, Kernel, quiet, Returns}
use linux_kernel_samples.Kernel.Contract.{Resource, debugfs_files, irq_line, holds}
use linux_kernel_samples.Kernel.Contract.Strict.{ledger_in}
use linux_kernel_samples.Sample.{is_live, later_state, later_trace}
use linux_kernel_samples.Sample.Blame.{load_error, load_error-call_in}
use linux_kernel_samples.Sample.Interrupts.{Frame, AllKeepHeld, Kept, safe_at, later-Kept}
use linux_kernel_samples.Sample.Contract.{discard-KeepsHeld}
use linux_kernel_samples.Danger.Writes.{arms, Held, HeldStays, unchanged, trace}
use linux_kernel_samples.Danger.SleepInHardirq.{
  Globals, hardirq_danger_top_half, trigger_write, danger_writes, callbacks,
}

-- `danger_enabled` is set only if the sleep is forgiven.
abbrev pub Excused : Bool → Globals → Type 0
Excused strict g = (g.gs_debugfs_danger_enabled && strict) ≡ false

-- The writes change one variable. While the debugfs files are there, the irq is requested.
abbrev pub frame : Bool → Frame Globals
frame strict = record {
  strict = strict;
  Inv = Excused strict;
  core = λ g. record g { gs_debugfs_danger_enabled = false };
  safe = λ g rs. not (is_live debugfs_files rs) || holds (Resource.irq g.gs_virq) rs;
}

hardirq_danger_top_half-Keeps :
    (strict : Bool) (k : Kernel) (g : Globals) (t : Trace) (rs : List Resource)
    → Excused strict g
    → Held strict (hardirq ∷ []) rs t
    → Returns
        (λ _ g' t'. (g' ≡ g) × HeldStays strict (hardirq ∷ []) rs t t')
        (hardirq_danger_top_half (quiet k) g t)
unfolding hardirq_danger_top_half
hardirq_danger_top_half-Keeps true k g t rs i h = grind (trace, load_error-call_in true)
hardirq_danger_top_half-Keeps false k g t rs i h = grind (trace, load_error-call_in false)

trigger_write-Keeps :
    (strict : Bool) (k : Kernel) (g : Globals) (t : Trace) (rs : List Resource)
    → (frame strict).safe g rs ≡ true
    → is_live debugfs_files rs ≡ true
    → Held strict (process ∷ []) rs t
    → Returns
        (λ _ g' t'. (g' ≡ g) × HeldStays strict (process ∷ []) rs t t')
        ((trigger_write 2) (quiet k) g t)
unfolding trigger_write
trigger_write-Keeps strict k g t rs safe live h = grind (trace, load_error-call_in strict)

danger_writes-KeepHeld :
    (strict : Bool) (values : List Bool)
    → (arms values && strict) ≡ false
    → AllKeepHeld (frame strict) (danger_writes values)
danger_writes-KeepHeld strict [] e = tt
danger_writes-KeepHeld strict (value ∷ values) e = (
  λ k g t rs i safe live h. (ground arith, refl, (h, refl)),
  danger_writes-KeepHeld strict values (ground arith),
)

module _ (strict : Bool) (values : List Bool) (excused : (arms values && strict) ≡ false) where
  pub callbacks-KeepHeld : AllKeepHeld (frame strict) (callbacks values)
  unfolding ledger_in
  callbacks-KeepHeld = (
    discard-KeepsHeld (frame strict) hardirq irq_line hardirq_danger_top_half
        λ k g t rs i safe live h.
          unchanged (frame strict) g t _ rs _ i (hardirq_danger_top_half-Keeps strict k g t rs i h),
    (
      discard-KeepsHeld (frame strict) process debugfs_files (trigger_write 2)
          λ k g t rs i safe live h.
            unchanged (frame strict) g t _ rs _ i (trigger_write-Keeps strict k g t rs safe live h),
      danger_writes-KeepHeld strict values excused,
    ),
  )

  module _ (k : Kernel) (g : Globals) (t : Trace) (i : Excused strict g)
      (safe : safe_at (frame strict) g (ledger_in strict t) ≡ true) where
    kept :
        Kept
          (frame strict)
          g
          t
          (later_state k (callbacks values) g t)
          (later_trace k (callbacks values) g t)
    unfolding ledger_in
    kept = later-Kept (frame strict) k (callbacks values) g t callbacks-KeepHeld i safe

    pub same_domain : (later_state k (callbacks values) g t).gs_sim_domain ≡ g.gs_sim_domain
    same_domain = ap (λ (x : Globals). x.gs_sim_domain) kept.same_core

    pub same_virq : (later_state k (callbacks values) g t).gs_virq ≡ g.gs_virq
    same_virq = ap (λ (x : Globals). x.gs_virq) kept.same_core

    pub same_dir : (later_state k (callbacks values) g t).gs_debug_dir ≡ g.gs_debug_dir
    same_dir = ap (λ (x : Globals). x.gs_debug_dir) kept.same_core

    pub still-Excused : Excused strict (later_state k (callbacks values) g t)
    still-Excused = kept.inv

    pub same_ledger : ledger_in strict (later_trace k (callbacks values) g t) ≡ ledger_in strict t
    unfolding ledger_in
    same_ledger = kept.same_ledger

    pub same_error : load_error (later_trace k (callbacks values) g t) ≡ load_error t
    same_error = kept.same_error

pub ruleset calls =
    (trace, same_domain, same_virq, same_dir, still-Excused, same_ledger, same_error)
