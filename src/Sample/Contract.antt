-- ===== src/Sample/Contract.antt =====
-- The interface that a sample's proofs fill, and what follows from it for every history.
use linux_kernel_samples.Base.{
  ◌≡◌, sym, ◌∙◌, ap, Bool, true, some, List, [], ◌∷◌, ℤ, is_zero, if◌then◌else◌, Bool-cases, inl,
  inr,
}
use linux_kernel_samples.Kernel.{Context, Trace, Kernel, quiet, Out, out, and_then, M, Returns}
use linux_kernel_samples.Kernel.Hoare.{mono}
use linux_kernel_samples.Kernel.Contract.{Resource, Source, ledger_of}
use linux_kernel_samples.Kernel.Contract.Strict.{seen-ledger_of}
use linux_kernel_samples.Sample.Blame.{load_error}
use linux_kernel_samples.Sample.{
  discard, Sample, Phase, unloaded, loaded, State, Action, insmod, rmmod, run_callback, is_live,
  run_due, interrupted, callback_at, after_init, after_exit, after_callback, act, history,
}
use linux_kernel_samples.Sample.Interrupts.{
  StaysIn, HoldsIn, Frame, safe_at, KeepsHeld, AllKeepHeld, Kept, run_at-Kept,
}

abbrev pub Always : {S : Type 0} → S → Type 0
Always g = Unit

module _ {S : Type 0} where
  abbrev pub held_after : Sample S → ℤ → S → List Resource
  held_after p ret g = if is_zero ret then p.held g else []

  discard-Returns :
      {A : Type 0} (P : S → Trace → Type 0) (o : Out S A)
      → Returns (λ _ g t. P g t) o
      → Returns (λ _ g t. P g t) (and_then o (λ _ g t. out tt g t))
  discard-Returns P (out a g t) h = h

  -- What an interrupt handler returns plays no part.
  pub discard-KeepsHeld :
      {A : Type 0} (f : Frame S) (c : Context) (src : Source) (m : M S A)
      → ((k : Kernel) (g : S) (t : Trace) (rs : List Resource)
          → f.Inv g
          → f.safe (f.core g) rs ≡ true
          → is_live src rs ≡ true
          → HoldsIn f.strict (c ∷ []) rs t
          → Returns
              (λ _ g' t'. f.Inv g' × (f.core g' ≡ f.core g) × StaysIn f.strict (c ∷ []) rs t t')
              (m (quiet k) g t))
      → KeepsHeld f (record { context = c; source = src; body = discard m })
  discard-KeepsHeld f c src m keeps k g t rs i safe live h =
      discard-Returns
        (λ g' t'. f.Inv g' × (f.core g' ≡ f.core g) × StaysIn f.strict (c ∷ []) rs t t')
        (m (quiet k) g t) (keeps k g t rs i safe live h)

  -- A load acquires all that the module holds, or nothing, and returns the first error of its own
  -- calls; an unload gives all of it back; a callback leaves it alone. All three keep the contract,
  -- whatever the kernel answers and however often callbacks interrupt the calls of a load and of an
  -- unload.
  pub record IsSound (p : Sample S) (f : Frame S) : Type 0 where
    pub init_law :
        (k : Kernel) (t : Trace)
        → HoldsIn f.strict [] [] t
        → Returns
            (λ ret g t'.
              f.Inv g × HoldsIn f.strict [] (held_after p ret g) t' × (ret ≡ load_error t'))
            (p.init (interrupted k p.interrupts) p.initial t)
    pub exit_law :
        (k : Kernel) (g : S) (t : Trace)
        → f.Inv g
        → HoldsIn f.strict [] (p.held g) t
        → Returns (λ _ g' t'. HoldsIn f.strict [] [] t') (p.exit (interrupted k p.interrupts) g t)
    pub callbacks_law : AllKeepHeld f p.callbacks
    pub held_core : (g : S) → p.held (f.core g) ≡ p.held g
    pub held_safe : (g : S) → f.safe (f.core g) (p.held g) ≡ true

  -- What the module holds in its phase.
  abbrev pub held_in : Sample S → Phase S → List Resource
  held_in p unloaded = []
  held_in p (loaded g) = p.held g

  abbrev pub InvIn : (S → Type 0) → Phase S → Type 0
  InvIn Inv unloaded = Unit
  InvIn Inv (loaded g) = Inv g

  -- The trace of the state obeys the contract, and the module holds what its phase says; if not
  -- `strict`, `msleep` may have been called in atomic context.
  abbrev pub ObeysIn : Bool → Sample S → State S → Type 0
  ObeysIn strict p s = HoldsIn strict [] (held_in p s.phase) s.trace

  abbrev pub ObeysContract : Sample S → State S → Type 0
  ObeysContract p s = ObeysIn true p s

  -- What a load that begins there returns, however often callbacks interrupt its calls.
  abbrev pub ReportsIn : Kernel → Sample S → Phase S → Trace → Type 0
  ReportsIn k p unloaded t =
      Returns (λ ret g t'. ret ≡ load_error t') (p.init (interrupted k p.interrupts) p.initial t)
  ReportsIn k p (loaded g) t = Unit

  abbrev pub ReportsAfter : Kernel → List Action → Sample S → Type 0
  ReportsAfter k actions p = ReportsIn k p (history k p actions).phase (history k p actions).trace

module _ {S : Type 0} (k : Kernel) (p : Sample S) (f : Frame S) (sound : IsSound p f) where
  open sound use {init_law, exit_law, callbacks_law, held_core, held_safe}

  abbrev Good : State S → Type 0
  Good s = InvIn f.Inv s.phase × ObeysIn f.strict p s

  after_init-Good :
      (o : Out S ℤ)
      → Returns
          (λ ret g t'.
            f.Inv g × HoldsIn f.strict [] (held_after p ret g) t' × (ret ≡ load_error t'))
          o
      → Good (after_init k p o)
  unfolding after_init
  after_init-Good (out ret g t) h = elim (Bool-cases (is_zero ret)) [
    | inl e ↦ rw e (h.0, (rw e at (h.1)))
    | inr e ↦ rw e (tt, (rw e at h.1))
  ]

  same_held : {g g' : S} → f.core g' ≡ f.core g → p.held g' ≡ p.held g
  same_held {g} {g'} e = sym (held_core g') ∙ ap p.held e ∙ held_core g

  loaded_safe : (g : S) → safe_at f g (some (ledger_of [] (p.held g))) ≡ true
  loaded_safe g = rw (held_safe g)

  after_callback-Good :
      (g : S) (t : Trace) (o : Out S (Unit {0}))
      → HoldsIn f.strict [] (p.held g) t
      → Returns (λ _ g' t'. Kept f g t g' t') o
      → Good (after_callback k p o)
  unfolding after_callback
  after_callback-Good g t (out _ g' t') h kept =
      (kept.inv, kept.same_ledger ∙ h ∙ rw (same_held kept.same_core))

  after_exit-Good :
      (o : Out S (Unit {0}))
      → Returns (λ _ g' t'. HoldsIn f.strict [] [] t') o
      → Good (after_exit k p o)
  unfolding after_exit
  after_exit-Good (out _ g' t') e = (tt, e)

  act-Good :
      (a : Action) (s : Phase S) (t : Trace)
      → InvIn f.Inv s
      → HoldsIn f.strict [] (held_in p s) t
      → Good (act k p a s t)
  unfolding act
  act-Good insmod unloaded t v h =
      after_init-Good (p.init (interrupted k p.interrupts) p.initial t) (init_law k t h)
  act-Good insmod (loaded g) t v h = (v, h)
  act-Good rmmod unloaded t v h = (v, h)
  act-Good rmmod (loaded g) t v h =
      after_exit-Good (p.exit (interrupted k p.interrupts) g t) (exit_law k g t v h)
  act-Good (run_callback i) unloaded t v h = (v, h)
  act-Good (run_callback i) (loaded g) t v h =
      after_callback-Good g t (run_due k (callback_at p.callbacks i) g t) h
        (run_at-Kept f k p.callbacks i g t callbacks_law v (rw h (loaded_safe g)))

  history-Good : (actions : List Action) → Good (history k p actions)
  unfolding history
  history-Good [] = (tt, seen-ledger_of f.strict [] [])
  history-Good (a ∷ rest) =
      let before = history-Good rest in
      act-Good a (history k p rest).phase (history k p rest).trace before.0 before.1

  -- In every history of loads, unloads and callbacks, the trace obeys the contract.
  pub history-obeys : (actions : List Action) → ObeysIn f.strict p (history k p actions)
  history-obeys actions = (history-Good actions).1

  -- And the invariant holds of the variables whenever the module is loaded.
  pub history-keeps : (actions : List Action) → InvIn f.Inv (history k p actions).phase
  history-keeps actions = (history-Good actions).0

  init-Reports : (s : Phase S) (t : Trace) → HoldsIn f.strict [] (held_in p s) t → ReportsIn k p s t
  init-Reports unloaded t h =
      mono
        (λ ret g t'. f.Inv g × HoldsIn f.strict [] (held_after p ret g) t' × (ret ≡ load_error t'))
        (λ ret g t'. ret ≡ load_error t') (p.init (interrupted k p.interrupts) p.initial t)
        (init_law k t h) λ ret g t' (_, _, told). told
  init-Reports (loaded g) t h = tt

  -- And the next load returns the first error of its own calls.
  pub history-ReportsAfter : (actions : List Action) → ReportsAfter k actions p
  history-ReportsAfter actions =
      init-Reports (history k p actions).phase (history k p actions).trace (history-obeys actions)
