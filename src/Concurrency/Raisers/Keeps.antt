-- ===== src/Concurrency/Raisers/Keeps.antt =====
-- The callbacks of `interrupt_competition` keep the contract and the bound on the raises.
use linux_kernel_samples.Base.{
  ℕ, zero, suc, ◌≤◌, ◌==◌, Bool-cases, inl, inr, ◌≡◌, refl, ap, ℤ, is_zero, true, false, not, ◌||◌,
  ◌&&◌, [], ◌∷◌, List, arith, same_int_refl,
}
use linux_kernel_samples.Kernel.{hardirq, softirq, process, Trace, Kernel, quiet, Returns}
use linux_kernel_samples.Kernel.Contract.{ledger, Resource, irq_line, tasklets, threads_of, holds}
use linux_kernel_samples.Sample.{is_live, later_state, later_trace}
use linux_kernel_samples.Sample.Blame.{load_error, blame}
use linux_kernel_samples.Sample.Interrupts.{
  Stays, Holds, Frame, AllKeepHeld, Kept, safe_at, later-Kept,
}
use linux_kernel_samples.Sample.Contract.{discard-KeepsHeld}
use linux_kernel_samples.Concurrency.Raisers.{
  raises_per_cpu, Globals, interrupt_competition_bottom_half, interrupt_competition_top_half,
  irq_raiser_should_run, count_raise, raiser_thread, initial, threads, callbacks,
}

-- No CPU has raised the irq more than `RAISES_PER_CPU` times.
abbrev pub AtMost : Globals → Type 0
AtMost g = (cpu : ℕ) → g.gs_raise_count cpu ≤ raises_per_cpu

pub count_raise-AtMost :
    (cpu : ℕ) (g : Globals)
    → irq_raiser_should_run cpu g ≡ true
    → AtMost g
    → AtMost (count_raise cpu g)
unfolding count_raise irq_raiser_should_run
count_raise-AtMost cpu g due most c = elim (Bool-cases (c == cpu)) [
  | inl same ↦ let e : c ≡ cpu = ground arith in rw same (rw (e) (ground arith))
  | inr other ↦ rw other (most c)
]

-- The callbacks write the counters. While the irq is requested, the tasklet is set up; while the threads
-- are there, the irq is requested; no spinlock is held.
abbrev pub frame : Frame Globals
frame = record {
  strict = true;
  Inv = AtMost;
  core = λ g. record initial { gs_sim_domain = g.gs_sim_domain; gs_virq = g.gs_virq };
  safe = λ g rs.
      (not (is_live irq_line rs) || holds Resource.tasklet rs)
      && ((not (is_live threads_of rs) || holds (Resource.irq g.gs_virq) rs)
          && not (holds Resource.spinlock rs));
}

top_half-Keeps :
    (k : Kernel) (g : Globals) (t : Trace) (rs : List Resource)
    → AtMost g
    → frame.safe (frame.core g) rs ≡ true
    → is_live irq_line rs ≡ true
    → Holds (hardirq ∷ []) rs t
    → Returns
        (λ _ g' t'. AtMost g' × (frame.core g' ≡ frame.core g) × Stays (hardirq ∷ []) rs t t')
        (interrupt_competition_top_half (quiet k) g t)
unfolding interrupt_competition_top_half
top_half-Keeps k g t rs most safe live h = (most, refl, grind (arith, blame))

bottom_half-Keeps :
    (k : Kernel) (g : Globals) (t : Trace) (rs : List Resource)
    → AtMost g
    → frame.safe (frame.core g) rs ≡ true
    → is_live tasklets rs ≡ true
    → Holds (softirq ∷ []) rs t
    → Returns
        (λ _ g' t'. AtMost g' × (frame.core g' ≡ frame.core g) × Stays (softirq ∷ []) rs t t')
        (interrupt_competition_bottom_half (quiet k) g t)
unfolding interrupt_competition_bottom_half
bottom_half-Keeps k g t rs most safe live h = (most, refl, grind (arith, blame))

raiser_thread-Keeps :
    (cpu : ℕ) (k : Kernel) (g : Globals) (t : Trace) (rs : List Resource)
    → AtMost g
    → frame.safe (frame.core g) rs ≡ true
    → is_live threads_of rs ≡ true
    → Holds (process ∷ []) rs t
    → Returns
        (λ _ g' t'. AtMost g' × (frame.core g' ≡ frame.core g) × Stays (process ∷ []) rs t t')
        (raiser_thread cpu (quiet k) g t)
unfolding raiser_thread count_raise
raiser_thread-Keeps cpu k g t rs most safe live h =
    elim (Bool-cases (irq_raiser_should_run cpu g)) [
      | inl due ↦ rw due (count_raise-AtMost cpu g due most, refl, grind (arith, blame))
      | inr over ↦ rw over (most, refl, (h, refl))
    ]

threads-KeepHeld : (n : ℕ) → AllKeepHeld frame (threads n)
threads-KeepHeld zero = tt
threads-KeepHeld (suc cpu) = (raiser_thread-Keeps cpu, threads-KeepHeld cpu)

pub callbacks-KeepHeld : (n : ℕ) → AllKeepHeld frame (callbacks n)
callbacks-KeepHeld n = (
  discard-KeepsHeld frame hardirq irq_line interrupt_competition_top_half top_half-Keeps,
  (bottom_half-Keeps, threads-KeepHeld n),
)

module _ (n : ℕ) (k : Kernel) (g : Globals) (t : Trace) (i : AtMost g)
    (safe : safe_at frame g (ledger t) ≡ true) where
  kept : Kept frame g t (later_state k (callbacks n) g t) (later_trace k (callbacks n) g t)
  kept = later-Kept frame k (callbacks n) g t (callbacks-KeepHeld n) i safe

  pub same_domain : (later_state k (callbacks n) g t).gs_sim_domain ≡ g.gs_sim_domain
  same_domain = ap (λ (x : Globals). x.gs_sim_domain) kept.same_core

  pub same_virq : (later_state k (callbacks n) g t).gs_virq ≡ g.gs_virq
  same_virq = ap (λ (x : Globals). x.gs_virq) kept.same_core

  pub still-AtMost : AtMost (later_state k (callbacks n) g t)
  still-AtMost = kept.inv

  pub same_ledger : ledger (later_trace k (callbacks n) g t) ≡ ledger t
  same_ledger = kept.same_ledger

  pub same_error : load_error (later_trace k (callbacks n) g t) ≡ load_error t
  same_error = kept.same_error

pub ruleset calls =
    (arith, same_int_refl, same_domain, same_virq, still-AtMost, same_ledger, same_error, blame)
