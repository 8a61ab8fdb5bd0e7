-- ===== src/Sample/Tracking/Histories.antt =====
-- What the phases of a module say of its variables and the trace, in every history.
use linux_kernel_samples.Base.{List, [], ◌∷◌, ℕ, ℤ, is_zero, if◌then◌else◌}
use linux_kernel_samples.Kernel.{Trace, Kernel, Out, out, Returns}
use linux_kernel_samples.Sample.{
  Sample, Phase, unloaded, loaded, Action, insmod, rmmod, run_callback, history, act, after_init,
  after_exit, after_callback, interrupted, run_due, callback_at,
}
use linux_kernel_samples.Sample.Interrupts.{Holds}
use linux_kernel_samples.Sample.Contract.{held_in, ObeysContract}

module _ {S : Type 0} where
  -- `P` while the module is loaded, `Q` otherwise.
  abbrev pub Tracked : (S → Trace → Type 0) → (Trace → Type 0) → Phase S → Trace → Type 0
  Tracked P Q unloaded t = Q t
  Tracked P Q (loaded g) t = P g t

  abbrev pub phase_of : ℤ → S → Phase S
  phase_of ret g = if is_zero ret then loaded g else unloaded

  pub record Tracks (k : Kernel) (p : Sample S) (P : S → Trace → Type 0) (Q : Trace → Type 0)
      : Type 0 where
    pub start : Q []
    pub init_tracks :
        (t : Trace)
        → Q t
        → Returns
            (λ ret g t'. Tracked P Q (phase_of ret g) t')
            (p.init (interrupted k p.interrupts) p.initial t)
    pub exit_tracks :
        (g : S) (t : Trace)
        → Holds [] (p.held g) t
        → P g t
        → Returns (λ _ g' t'. Q t') (p.exit (interrupted k p.interrupts) g t)
    pub callbacks_track :
        (i : ℕ) (g : S) (t : Trace)
        → P g t
        → Returns (λ _ g' t'. P g' t') (run_due k (callback_at p.callbacks i) g t)
    pub obeys : (actions : List Action) → ObeysContract p (history k p actions)

module _ {S : Type 0} (k : Kernel) (p : Sample S) (P : S → Trace → Type 0) (Q : Trace → Type 0)
    (tracks : Tracks k p P Q) where
  open tracks use {start, init_tracks, exit_tracks, callbacks_track, obeys}

  after_init-track :
      (o : Out S ℤ)
      → Returns (λ ret g t'. Tracked P Q (phase_of ret g) t') o
      → Tracked P Q (after_init k p o).phase (after_init k p o).trace
  unfolding after_init
  after_init-track (out ret g t) h = h

  after_exit-track :
      (o : Out S (Unit {0}))
      → Returns (λ _ g' t'. Q t') o
      → Tracked P Q (after_exit k p o).phase (after_exit k p o).trace
  unfolding after_exit
  after_exit-track (out _ g t) h = h

  after_callback-track :
      (o : Out S (Unit {0}))
      → Returns (λ _ g' t'. P g' t') o
      → Tracked P Q (after_callback k p o).phase (after_callback k p o).trace
  unfolding after_callback
  after_callback-track (out _ g t) h = h

  act-track :
      (a : Action) (s : Phase S) (t : Trace)
      → Holds [] (held_in p s) t
      → Tracked P Q s t
      → Tracked P Q (act k p a s t).phase (act k p a s t).trace
  unfolding act
  act-track insmod unloaded t h v = after_init-track _ (init_tracks t v)
  act-track insmod (loaded g) t h v = v
  act-track rmmod unloaded t h v = v
  act-track rmmod (loaded g) t h v = after_exit-track _ (exit_tracks g t h v)
  act-track (run_callback i) unloaded t h v = v
  act-track (run_callback i) (loaded g) t h v = after_callback-track _ (callbacks_track i g t v)

  pub history-track :
      (actions : List Action) → Tracked P Q (history k p actions).phase (history k p actions).trace
  unfolding history
  history-track [] = start
  history-track (a ∷ rest) =
      act-track a (history k p rest).phase (history k p rest).trace (obeys rest)
        (history-track rest)
