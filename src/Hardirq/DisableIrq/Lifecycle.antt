-- ===== src/Hardirq/DisableIrq/Lifecycle.antt =====
-- The proofs that `disable_irq` keeps the contract of the interfaces it calls.
use linux_kernel_samples.Base.{
  ℕ, zero, suc, ◌+◌, ℤ, is_zero, pos, sym, ◌≡◌, refl, false, [], ◌∷◌, List, arith, same_int_refl,
}
use linux_kernel_samples.Kernel.{Trace, Kernel, quiet, Returns}
use linux_kernel_samples.Kernel.Contract.{Resource}
use linux_kernel_samples.Sample.{Action, history, interrupted}
use linux_kernel_samples.Sample.Blame.{load_error}
use linux_kernel_samples.Sample.Interrupts.{Holds}
use linux_kernel_samples.Sample.Errors.{Reports, first_error}
use linux_kernel_samples.Sample.Contract.{
  held_after, IsSound, ObeysContract, history-obeys, ReportsAfter, history-ReportsAfter,
}
use linux_kernel_samples.Hardirq.DisableIrq.{
  Globals, interruptible, raise_loop, err_enable_irq, err_free_irq, err_dispose_mapping,
  err_remove_sim, raise_while_disabled, disable_irq_module_init, disable_irq_module_exit, held,
  initial, callbacks, disable_irq_sample,
}
use linux_kernel_samples.Hardirq.DisableIrq.Deliver.{Small, frame, callbacks-KeepHeld, calls}

-- What a load leaves behind: all that the module holds, or nothing.
abbrev Settled : ℤ → Globals → Trace → Type 0
Settled ret g t = Small g × Holds [] (held_after disable_irq_sample ret g) t × (ret ≡ load_error t)

abbrev masked_held : Globals → List Resource
masked_held g = Resource.masked g.gs_virq ∷ held g

module _ (k : Kernel) (ret : ℤ) (g : Globals) (t : Trace) (failed : is_zero ret ≡ false)
    (i : Small g) (told : ret ≡ load_error t) where
  err_remove_sim-Settled :
      Holds [] (Resource.domain g.gs_sim_domain ∷ []) t
      → Returns Settled (err_remove_sim ret (interrupted k callbacks) g t)
  unfolding err_remove_sim
  err_remove_sim-Settled h = grind (calls, same_int_refl)

  err_dispose_mapping-Settled :
      Holds [] (Resource.mapping g.gs_virq ∷ Resource.domain g.gs_sim_domain ∷ []) t
      → Returns Settled (err_dispose_mapping ret (interrupted k callbacks) g t)
  unfolding err_dispose_mapping
  err_dispose_mapping-Settled h = grind (calls, same_int_refl)

  err_free_irq-Settled :
      Holds [] (held g) t → Returns Settled (err_free_irq ret (interrupted k callbacks) g t)
  unfolding err_free_irq
  err_free_irq-Settled h = grind (calls, same_int_refl)

module _ (k : Kernel) (ret : ℤ) (g : Globals) (t : Trace) (failed : is_zero ret ≡ false)
    (i : Small g) (told : ret ≡ load_error t) where
  err_enable_irq-Settled :
      Holds [] (masked_held g) t
      → Returns Settled (err_enable_irq ret (interrupted k callbacks) g t)
  unfolding err_enable_irq interruptible
  err_enable_irq-Settled h = grind (calls, same_int_refl, err_free_irq-Settled)

-- What a stretch of the load leaves behind while the line is disabled.
abbrev Disabled : ℤ → Globals → Globals → Trace → Type 0
Disabled ret g g' t' =
    Small g'
    × (g'.gs_virq ≡ g.gs_virq)
    × (g'.gs_sim_domain ≡ g.gs_sim_domain)
    × Holds [] (masked_held g) t'
    × (ret ≡ load_error t')

raise_loop-Disabled :
    (k : Kernel) (left n : ℕ) (g : Globals) (t : Trace)
    → Small g
    → load_error t ≡ pos 0
    → Holds [] (masked_held g) t
    → Returns (λ ret g' t'. Disabled ret g g' t') (raise_loop left n (interrupted k callbacks) g t)
unfolding raise_loop interruptible
raise_loop-Disabled k zero n g t i clean h = (i, refl, refl, h, sym clean)
raise_loop-Disabled k (suc left) n g t i clean h =
    grind (calls, same_int_refl, raise_loop-Disabled k left (n + 1))

module _ (k : Kernel) (g : Globals) (t : Trace) (i : Small g) where
  raise_while_disabled-Settled :
      load_error t ≡ pos 0
      → Holds [] (held g) t
      → Returns Settled (raise_while_disabled (interrupted k callbacks) g t)
  unfolding raise_while_disabled interruptible
  raise_while_disabled-Settled clean h =
      grind (calls, same_int_refl, raise_loop-Disabled, err_enable_irq-Settled)

module _ (k : Kernel) (g : Globals) (t : Trace) (i : Small g) where
  init-Settled :
      Holds [] [] t → Returns Settled (disable_irq_module_init (interrupted k callbacks) g t)
  unfolding disable_irq_module_init
  init-Settled h = grind (
    calls, same_int_refl, err_remove_sim-Settled, err_dispose_mapping-Settled,
    raise_while_disabled-Settled,
  )

  exit-Holds :
      Holds [] (held g) t
      → Returns (λ _ g' t'. Holds [] [] t') (disable_irq_module_exit (interrupted k callbacks) g t)
  unfolding disable_irq_module_exit
  exit-Holds h = grind (calls, same_int_refl)

sound : IsSound disable_irq_sample frame
sound = record {
  init_law = λ k t h. init-Settled k initial t (omega arith) h;
  exit_law = λ k g t i h. exit-Holds k g t i h;
  callbacks_law = callbacks-KeepHeld;
  held_core = λ g. refl;
  held_safe = λ g. refl;
}

-- Whatever the kernel answers, in whatever order `disable_irq` is loaded, its handler runs and it is
-- unloaded, and however often the registered handler interrupts the calls of a load and of an unload:
-- its trace obeys the contract, and it holds its resources while loaded and none otherwise.
pub disable_irq-obeys :
    (k : Kernel) (actions : List Action)
    → ObeysContract disable_irq_sample (history k disable_irq_sample actions)
disable_irq-obeys k = history-obeys k disable_irq_sample frame sound

-- In the same histories, the next load returns the first error of its own calls.
pub disable_irq-ReportsAfter :
    (k : Kernel) (actions : List Action) → ReportsAfter k actions disable_irq_sample
disable_irq-ReportsAfter k = history-ReportsAfter k disable_irq_sample frame sound

raise_loop-first_error :
    (k : Kernel) (left n : ℕ) (g : Globals) (t : Trace)
    → first_error t ≡ pos 0
    → Returns (λ ret g' t'. ret ≡ first_error t') (raise_loop left n (quiet k) g t)
unfolding raise_loop interruptible
raise_loop-first_error k zero n g t e = sym e
raise_loop-first_error k (suc left) n g t e = grind (arith, raise_loop-first_error k left (n + 1))

raise_while_disabled-first_error :
    (k : Kernel) (g : Globals) (t : Trace)
    → first_error t ≡ pos 0
    → Returns (λ ret g' t'. ret ≡ first_error t') (raise_while_disabled (quiet k) g t)
unfolding raise_while_disabled interruptible err_enable_irq err_free_irq
raise_while_disabled-first_error k g t e = grind (arith, raise_loop-first_error)

pub disable_irq-Reports : (k : Kernel) → Reports k disable_irq_sample
unfolding disable_irq_module_init err_dispose_mapping err_remove_sim
disable_irq-Reports k = grind (arith, raise_while_disabled-first_error)
