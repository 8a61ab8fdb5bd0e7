-- ===== src/Smp/PercpuParallel/Lifecycle.antt =====
-- The proofs that `percpu_parallel` keeps the contract of the interfaces it calls.
use linux_kernel_samples.Base.{ℕ, zero, suc, ◌+◌, ◌≡◌, refl, true, not, [], ◌∷◌, List, arith}
use linux_kernel_samples.Kernel.{process, Trace, Kernel, quiet, Machine, Returns}
use linux_kernel_samples.Kernel.Hoare.{bind}
use linux_kernel_samples.Kernel.Contract.{ledger, Resource, threads_of, holds}
use linux_kernel_samples.Sample.{Action, history, is_live, interrupted, later_trace}
use linux_kernel_samples.Sample.Blame.{load_error, blame}
use linux_kernel_samples.Sample.Interrupts.{Stays, Holds, Frame, AllKeepHeld, safe_at, later-Kept}
use linux_kernel_samples.Sample.Errors.{Reports, first_error}
use linux_kernel_samples.Sample.Contract.{
  held_after, Always, IsSound, ObeysContract, history-obeys, ReportsAfter, history-ReportsAfter,
}
use linux_kernel_samples.Smp.PercpuParallel.{
  Globals, set_counts, thread, percpu_parallel_module_init, percpu_parallel_module_exit, held,
  initial, threads, percpu_parallel_sample,
}

-- The threads write the only variable; they sleep, so that no spinlock may be held.
abbrev frame : Frame Globals
frame = record {
  strict = true;
  Inv = Always;
  core = λ g. initial;
  safe = λ g rs. not (holds Resource.spinlock rs);
}

thread-Keeps :
    (cpu : ℕ) (k : Kernel) (g : Globals) (t : Trace) (rs : List Resource)
    → Always g
    → frame.safe g rs ≡ true
    → is_live threads_of rs ≡ true
    → Holds (process ∷ []) rs t
    → Returns
        (λ _ g' t'. Always g' × (initial ≡ initial) × Stays (process ∷ []) rs t t')
        (thread cpu (quiet k) g t)
unfolding thread
thread-Keeps cpu k g t rs i safe live h = grind (arith, blame)

threads-KeepHeld : (n : ℕ) → AllKeepHeld frame (threads n)
threads-KeepHeld zero = tt
threads-KeepHeld (suc cpu) = (thread-Keeps cpu, threads-KeepHeld cpu)

module _ (n_cpus : ℕ) (k : Kernel) (g : Globals) (t : Trace)
    (safe : safe_at frame g (ledger t) ≡ true) where
  same_ledger : ledger (later_trace k (threads n_cpus) g t) ≡ ledger t
  same_ledger =
      (later-Kept frame k (threads n_cpus) g t (threads-KeepHeld n_cpus) tt safe).same_ledger

  same_error : load_error (later_trace k (threads n_cpus) g t) ≡ load_error t
  same_error =
      (later-Kept frame k (threads n_cpus) g t (threads-KeepHeld n_cpus) tt safe).same_error

-- The loop over the CPUs calls nothing.
set_counts-silent :
    (m : Machine Globals) (left cpu : ℕ) (g : Globals) (t : Trace)
    → Returns (λ _ g' t'. t' ≡ t) (set_counts left cpu m g t)
unfolding set_counts
set_counts-silent m zero cpu g t = refl
set_counts-silent m (suc left) cpu g t = set_counts-silent m left (cpu + 1) _ t

module _ (n_cpus : ℕ) (k : Kernel) (g : Globals) (t : Trace) where
  init-Holds :
      Holds [] [] t
      → Returns
          (λ ret g' t'.
            Always g'
            × Holds [] (held_after (percpu_parallel_sample n_cpus) ret g') t'
            × (ret ≡ load_error t'))
          (percpu_parallel_module_init n_cpus (interrupted k (threads n_cpus)) g t)
  unfolding percpu_parallel_module_init
  init-Holds h =
      bind (λ _ g' t'. t' ≡ t)
        (λ ret g' t'.
          Always g'
          × Holds [] (held_after (percpu_parallel_sample n_cpus) ret g') t'
          × (ret ≡ load_error t'))
        (set_counts n_cpus 0 (interrupted k (threads n_cpus)) g t) _
        (set_counts-silent (interrupted k (threads n_cpus)) n_cpus 0 g t)
        λ _ g' t' same. grind (arith, same, same_ledger n_cpus, same_error n_cpus, blame)

  exit-Holds :
      Holds [] (held g) t
      → Returns
          (λ _ g' t'. Holds [] [] t')
          (percpu_parallel_module_exit (interrupted k (threads n_cpus)) g t)
  unfolding percpu_parallel_module_exit
  exit-Holds h = grind (arith, same_ledger n_cpus)

sound : (n_cpus : ℕ) → IsSound (percpu_parallel_sample n_cpus) frame
sound n_cpus = record {
  init_law = λ k t h. init-Holds n_cpus k _ t h;
  exit_law = λ k g t i h. exit-Holds n_cpus k g t h;
  callbacks_law = threads-KeepHeld n_cpus;
  held_core = λ g. refl;
  held_safe = λ g. refl;
}

-- Whatever the kernel answers, on any number of CPUs, in whatever order `percpu_parallel` is loaded, its
-- threads run and it is unloaded, and however often registered threads interrupt the calls of a load
-- and of an unload: its trace obeys the contract, and it holds its threads while loaded and not
-- otherwise.
pub percpu_parallel-obeys :
    (n_cpus : ℕ) (k : Kernel) (actions : List Action)
    → ObeysContract
        (percpu_parallel_sample n_cpus)
        (history k (percpu_parallel_sample n_cpus) actions)
percpu_parallel-obeys n_cpus k =
    history-obeys k (percpu_parallel_sample n_cpus) frame (sound n_cpus)

-- In the same histories, the next load returns the first error of its own calls.
pub percpu_parallel-ReportsAfter :
    (n_cpus : ℕ) (k : Kernel) (actions : List Action)
    → ReportsAfter k actions (percpu_parallel_sample n_cpus)
percpu_parallel-ReportsAfter n_cpus k =
    history-ReportsAfter k (percpu_parallel_sample n_cpus) frame (sound n_cpus)

pub percpu_parallel-Reports :
    (n_cpus : ℕ) → (k : Kernel) → Reports k (percpu_parallel_sample n_cpus)
unfolding percpu_parallel_module_init
percpu_parallel-Reports n_cpus k =
    bind (λ _ g' t'. t' ≡ []) (λ ret g' t'. ret ≡ first_error t')
      (set_counts n_cpus 0 (quiet k) initial []) _ (set_counts-silent (quiet k) n_cpus 0 initial [])
      λ _ g' t' same. grind (arith, same)
