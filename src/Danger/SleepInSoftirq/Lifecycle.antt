-- ===== src/Danger/SleepInSoftirq/Lifecycle.antt =====
-- The proofs that `sleep_in_softirq_danger` keeps the contract of the interfaces it calls, but for the
-- sleep that it shows.
use linux_kernel_samples.Base.{
  ℤ, pos, is_zero, Bool, ◌≡◌, refl, false, not, ◌&&◌, [], ◌∷◌, List, arith, same_int_refl,
}
use linux_kernel_samples.Kernel.{Trace, Kernel, Returns}
use linux_kernel_samples.Kernel.Contract.{Resource}
use linux_kernel_samples.Kernel.Contract.Strict.{ledger_in}
use linux_kernel_samples.Sample.{Action, history, interrupted}
use linux_kernel_samples.Sample.Blame.{load_error, load_error-call_in}
use linux_kernel_samples.Sample.Errors.{Reports}
use linux_kernel_samples.Sample.Contract.{
  held_after, IsSound, ObeysIn, history-obeys, ReportsAfter, history-ReportsAfter,
}
use linux_kernel_samples.Danger.Writes.{arms, Held}
use linux_kernel_samples.Danger.SleepInSoftirq.{
  Globals, err_free_irq, err_dispose_mapping, err_remove_sim, err_kill_tasklet, create_controls,
  sleep_in_softirq_danger_module_init, sleep_in_softirq_danger_module_exit, held, callbacks,
  initial, sleep_in_softirq_danger_sample,
}
use linux_kernel_samples.Danger.SleepInSoftirq.Keeps.{Excused, frame, callbacks-KeepHeld, calls}

-- What a load leaves behind: all that the module holds, or nothing.
abbrev Settled : Bool → ℤ → Globals → Trace → Type 0
Settled strict ret g t =
    Excused strict g
    × Held strict [] (held_after (sleep_in_softirq_danger_sample []) ret g) t
    × (ret ≡ load_error t)

module _ (strict : Bool) (values : List Bool) (excused : (arms values && strict) ≡ false)
    (k : Kernel) (ret : ℤ) (g : Globals) (t : Trace) (failed : is_zero ret ≡ false)
    (i : Excused strict g) (told : ret ≡ load_error t) where
  err_free_irq-Settled :
      Held strict []
        (Resource.irq g.gs_virq
          ∷ Resource.mapping g.gs_virq
          ∷ Resource.domain g.gs_sim_domain
          ∷ Resource.tasklet
          ∷ [])
        t
      → Returns (Settled strict) (err_free_irq ret (interrupted k (callbacks values)) g t)
  unfolding err_free_irq
  err_free_irq-Settled h = grind (calls, load_error-call_in strict)

  err_dispose_mapping-Settled :
      Held strict []
        (Resource.mapping g.gs_virq ∷ Resource.domain g.gs_sim_domain ∷ Resource.tasklet ∷ [])
        t
      → Returns (Settled strict) (err_dispose_mapping ret (interrupted k (callbacks values)) g t)
  unfolding err_dispose_mapping
  err_dispose_mapping-Settled h = grind (calls, load_error-call_in strict)

  err_remove_sim-Settled :
      Held strict [] (Resource.domain g.gs_sim_domain ∷ Resource.tasklet ∷ []) t
      → Returns (Settled strict) (err_remove_sim ret (interrupted k (callbacks values)) g t)
  unfolding err_remove_sim
  err_remove_sim-Settled h = grind (calls, load_error-call_in strict)

  err_kill_tasklet-Settled :
      Held strict [] (Resource.tasklet ∷ []) t
      → Returns (Settled strict) (err_kill_tasklet ret (interrupted k (callbacks values)) g t)
  unfolding err_kill_tasklet
  err_kill_tasklet-Settled h = grind (calls, load_error-call_in strict)

module _ (strict : Bool) (values : List Bool) (excused : (arms values && strict) ≡ false)
    (k : Kernel) (g : Globals) (t : Trace) (i : Excused strict g) where
  create_controls-Settled :
      load_error t ≡ pos 0
      → Held strict []
          (Resource.irq g.gs_virq
            ∷ Resource.mapping g.gs_virq
            ∷ Resource.domain g.gs_sim_domain
            ∷ Resource.tasklet
            ∷ [])
          t
      → Returns (Settled strict) (create_controls (interrupted k (callbacks values)) g t)
  unfolding create_controls
  create_controls-Settled clean h = grind (calls, load_error-call_in strict, err_free_irq-Settled)

module _ (strict : Bool) (values : List Bool) (excused : (arms values && strict) ≡ false)
    (k : Kernel) (g : Globals) (t : Trace) (i : Excused strict g) where
  init-Settled :
      Held strict [] [] t
      → Returns
          (Settled strict)
          (sleep_in_softirq_danger_module_init (interrupted k (callbacks values)) g t)
  unfolding sleep_in_softirq_danger_module_init
  init-Settled h = grind (
    calls,
    load_error-call_in strict,
    err_dispose_mapping-Settled,
    err_remove_sim-Settled,
    err_kill_tasklet-Settled,
    create_controls-Settled,
  )

  exit-Holds :
      Held strict [] (held g) t
      → Returns
          (λ _ g' t'. Held strict [] [] t')
          (sleep_in_softirq_danger_module_exit (interrupted k (callbacks values)) g t)
  unfolding sleep_in_softirq_danger_module_exit
  exit-Holds h = grind calls

sound :
    (strict : Bool) (values : List Bool)
    → (arms values && strict) ≡ false
    → IsSound (sleep_in_softirq_danger_sample values) (frame strict)
unfolding ledger_in
sound strict values excused = record {
  init_law = λ k t h. init-Settled strict values excused k initial t refl h;
  exit_law = λ k g t i h. exit-Holds strict values excused k g t i h;
  callbacks_law = callbacks-KeepHeld strict values excused;
  held_core = λ g. refl;
  held_safe = λ g. grind (arith, same_int_refl);
}

-- Whatever the kernel answers, in whatever order `sleep_in_softirq_danger` is loaded, its callbacks run
-- and it is unloaded, whatever is written to `danger_enabled` and when, and however often registered
-- callbacks interrupt the calls of a load and of an unload: it holds its resources while loaded and none
-- otherwise, and its trace obeys the contract, but that `msleep` may have been called in atomic context
-- if one of the values written is 1.
pub sleep_in_softirq_danger-obeys :
    (values : List Bool) (k : Kernel) (actions : List Action)
    → ObeysIn
        (not (arms values))
        (sleep_in_softirq_danger_sample values)
        (history k (sleep_in_softirq_danger_sample values) actions)
sleep_in_softirq_danger-obeys values k =
    history-obeys k (sleep_in_softirq_danger_sample values) (frame (not (arms values)))
      (sound (not (arms values)) values (ground arith))

-- In the same histories, the next load returns the first error of its own calls.
pub sleep_in_softirq_danger-ReportsAfter :
    (values : List Bool) (k : Kernel) (actions : List Action)
    → ReportsAfter k actions (sleep_in_softirq_danger_sample values)
sleep_in_softirq_danger-ReportsAfter values k =
    history-ReportsAfter k (sleep_in_softirq_danger_sample values) (frame (not (arms values)))
      (sound (not (arms values)) values (ground arith))

pub sleep_in_softirq_danger-Reports :
    (values : List Bool) (k : Kernel) → Reports k (sleep_in_softirq_danger_sample values)
unfolding sleep_in_softirq_danger_module_init create_controls err_free_irq
sleep_in_softirq_danger-Reports values k = grind arith
