-- ===== src/Concurrency/Raisers/Lifecycle.antt =====
-- The proofs that `interrupt_competition` keeps the contract of the interfaces it calls, and that no CPU
-- raises the irq more often than it should.
use linux_kernel_samples.Base.{
  ℕ, ◌≡◌, refl, ℤ, pos, is_zero, false, [], ◌∷◌, List, arith, same_int_refl,
}
use linux_kernel_samples.Kernel.{Trace, Kernel, Returns}
use linux_kernel_samples.Kernel.Contract.{Resource}
use linux_kernel_samples.Sample.{Action, history, interrupted}
use linux_kernel_samples.Sample.Blame.{load_error}
use linux_kernel_samples.Sample.Interrupts.{Holds}
use linux_kernel_samples.Sample.Errors.{Reports}
use linux_kernel_samples.Sample.Contract.{
  held_after, IsSound, ObeysContract, InvIn, history-obeys, ReportsAfter, history-ReportsAfter,
  history-keeps,
}
use linux_kernel_samples.Concurrency.Raisers.{
  Globals, err_free_irq, err_dispose_mapping, err_remove_sim, err_kill_tasklet, register_raisers,
  interrupt_competition_module_init, interrupt_competition_module_exit, held, initial, callbacks,
  interrupt_competition_sample,
}
use linux_kernel_samples.Concurrency.Raisers.Keeps.{AtMost, frame, callbacks-KeepHeld, calls}

-- What a load leaves behind: all that the module holds, or nothing.
abbrev Settled : ℤ → Globals → Trace → Type 0
Settled ret g t =
    AtMost g × Holds [] (held_after (interrupt_competition_sample 0) ret g) t × (ret ≡ load_error t)

module _ (n : ℕ) (k : Kernel) (ret : ℤ) (g : Globals) (t : Trace) (failed : is_zero ret ≡ false)
    (i : AtMost g) (told : ret ≡ load_error t) where
  err_kill_tasklet-Settled :
      Holds [] (Resource.tasklet ∷ []) t
      → Returns Settled (err_kill_tasklet ret (interrupted k (callbacks n)) g t)
  unfolding err_kill_tasklet
  err_kill_tasklet-Settled h = grind calls

  err_remove_sim-Settled :
      Holds [] (Resource.domain g.gs_sim_domain ∷ Resource.tasklet ∷ []) t
      → Returns Settled (err_remove_sim ret (interrupted k (callbacks n)) g t)
  unfolding err_remove_sim
  err_remove_sim-Settled h = grind calls

  err_dispose_mapping-Settled :
      Holds []
        (Resource.mapping g.gs_virq ∷ Resource.domain g.gs_sim_domain ∷ Resource.tasklet ∷ [])
        t
      → Returns Settled (err_dispose_mapping ret (interrupted k (callbacks n)) g t)
  unfolding err_dispose_mapping
  err_dispose_mapping-Settled h = grind calls

  err_free_irq-Settled :
      Holds []
        (Resource.irq g.gs_virq
          ∷ Resource.mapping g.gs_virq
          ∷ Resource.domain g.gs_sim_domain
          ∷ Resource.tasklet
          ∷ [])
        t
      → Returns Settled (err_free_irq ret (interrupted k (callbacks n)) g t)
  unfolding err_free_irq
  err_free_irq-Settled h = grind calls

module _ (n : ℕ) (k : Kernel) (g : Globals) (t : Trace) (i : AtMost g) where
  register_raisers-Settled :
      load_error t ≡ pos 0
      → Holds []
          (Resource.irq g.gs_virq
            ∷ Resource.mapping g.gs_virq
            ∷ Resource.domain g.gs_sim_domain
            ∷ Resource.tasklet
            ∷ [])
          t
      → Returns Settled (register_raisers (interrupted k (callbacks n)) g t)
  unfolding register_raisers
  register_raisers-Settled clean h = grind (calls, err_free_irq-Settled)

module _ (n : ℕ) (k : Kernel) (g : Globals) (t : Trace) (i : AtMost g) where
  init-Settled :
      Holds [] [] t
      → Returns Settled (interrupt_competition_module_init (interrupted k (callbacks n)) g t)
  unfolding interrupt_competition_module_init
  init-Settled h = grind (
    calls, err_kill_tasklet-Settled, err_remove_sim-Settled, err_dispose_mapping-Settled,
    register_raisers-Settled,
  )

  exit-Holds :
      Holds [] (held g) t
      → Returns
          (λ _ g' t'. Holds [] [] t')
          (interrupt_competition_module_exit (interrupted k (callbacks n)) g t)
  unfolding interrupt_competition_module_exit
  exit-Holds h = grind calls

sound : (n_cpus : ℕ) → IsSound (interrupt_competition_sample n_cpus) frame
sound n_cpus = record {
  init_law = λ k t h. init-Settled n_cpus k initial t (λ cpu. omega arith) h;
  exit_law = λ k g t i h. exit-Holds n_cpus k g t i h;
  callbacks_law = callbacks-KeepHeld n_cpus;
  held_core = λ g. refl;
  held_safe = λ g. grind (arith, same_int_refl);
}

-- Whatever the kernel answers, on any number of CPUs, in whatever order `interrupt_competition` is
-- loaded, its callbacks run and it is unloaded, and however often registered callbacks interrupt the
-- calls of a load and of an unload: its trace obeys the contract, and it holds its resources while
-- loaded and none otherwise.
pub interrupt_competition-obeys :
    (n_cpus : ℕ) (k : Kernel) (actions : List Action)
    → ObeysContract
        (interrupt_competition_sample n_cpus)
        (history k (interrupt_competition_sample n_cpus) actions)
interrupt_competition-obeys n_cpus k =
    history-obeys k (interrupt_competition_sample n_cpus) frame (sound n_cpus)

-- In the same histories, the next load returns the first error of its own calls.
pub interrupt_competition-ReportsAfter :
    (n_cpus : ℕ) (k : Kernel) (actions : List Action)
    → ReportsAfter k actions (interrupt_competition_sample n_cpus)
interrupt_competition-ReportsAfter n_cpus k =
    history-ReportsAfter k (interrupt_competition_sample n_cpus) frame (sound n_cpus)

-- In the same histories, no CPU has raised the irq more than ten times since the load.
pub interrupt_competition-AtMost :
    (n_cpus : ℕ) (k : Kernel) (actions : List Action)
    → InvIn AtMost (history k (interrupt_competition_sample n_cpus) actions).phase
interrupt_competition-AtMost n_cpus k =
    history-keeps k (interrupt_competition_sample n_cpus) frame (sound n_cpus)

pub interrupt_competition-Reports :
    (n_cpus : ℕ) → (k : Kernel) → Reports k (interrupt_competition_sample n_cpus)
unfolding interrupt_competition_module_init register_raisers err_free_irq
interrupt_competition-Reports n_cpus k = grind arith
