-- ===== src/Sample.antt =====
-- What the samples have in common: `module_init` and `module_exit` register the hooks that `insmod`
-- and `rmmod` call, and the kernel runs the callbacks of a loaded module. A history is a list of such
-- actions, in any order.
pub mod Blame
pub mod Tracking
pub mod Interrupts
pub mod Contract
pub mod Errors
use linux_kernel_samples.Base.{
  ℕ, zero, suc, Bool, true, false, ◌&&◌, ◌||◌, Option, none, some, List, [], ◌∷◌, ℤ, is_zero,
  if◌then◌else◌,
}
use linux_kernel_samples.Kernel.{
  Context, Event, enter, leave, Trace, Kernel, Machine, quiet, Out, out, M, and_then, ◌>>=◌, pure,
}
use linux_kernel_samples.Kernel.Contract.{Resource, Source, is_source, is_outermost, Ledger, ledger}

-- A callback with the context that the kernel runs it in, and the kind of registration that it hangs on.
pub record Callback (S : Type 0) : Type 0 where
  pub context : Context
  pub source : Source
  pub body : M S (Unit {0})

-- The kernel ignores what the callback returns.
abbrev pub discard : {S A : Type 0} → M S A → M S (Unit {0})
discard m = m >>= λ _. pure tt

-- A registration of the module is in force.
abbrev pub is_live : Source → List Resource → Bool
is_live src [] = false
is_live src (r ∷ rs) = is_source src r || is_live src rs

-- The kernel interrupts an entry point of the module, which itself runs in no callback.
abbrev pub may_interrupt : Source → Option Ledger → Bool
may_interrupt src none = false
may_interrupt src (some l) = is_outermost l.contexts && is_live src l.held

abbrev pub callback_at : {S : Type 0} → List (Callback S) → ℕ → Option (Callback S)
callback_at [] i = none
callback_at (c ∷ cs) zero = some c
callback_at (c ∷ cs) (suc i) = callback_at cs i

pub record Sample (S : Type 0) : Type 0 where
  pub initial : S  -- the file-scope variables of a fresh module
  pub init : M S ℤ
  pub exit : M S (Unit {0})
  pub callbacks : List (Callback S)
  pub interrupts : List (Callback S)  -- those that may run while a call of `init` or `exit` lasts
  pub held : S → List Resource  -- what the loaded module holds, the newest first

pub data Phase (S : Type 0) : Type 0 where
  unloaded : Phase S
  loaded : S → Phase S

pub record State (S : Type 0) : Type 0 where
  pub phase : Phase S
  pub trace : Trace

pub data Action : Type 0 where
  insmod : Action
  rmmod : Action
  run_callback : ℕ → Action

abbrev pub state : {S : Type 0} → Phase S → Trace → State S
state p t = record { phase = p; trace = t }

module _ {S : Type 0} where
  -- One run of a callback, from entering its context to leaving it.
  abbrev pub run : Kernel → Callback S → S → Trace → Out S (Unit {0})
  run k c g t =
      and_then (c.body (quiet k) g (enter c.context ∷ t)) (λ _ g' t'. out tt g' (leave ∷ t'))

  abbrev pub run_due : Kernel → Option (Callback S) → S → Trace → Out S (Unit {0})
  run_due k none g t = out tt g t
  run_due k (some c) g t = if may_interrupt c.source (ledger t) then run k c g t else out tt g t

  -- The callbacks that the kernel picks, each if it is registered when its turn comes.
  unfoldable pub deliver : Kernel → List (Callback S) → List ℕ → S → Trace → Out S (Unit {0})
  deliver k [] due g t = out tt g t
  deliver k (c ∷ cs) [] g t = out tt g t
  deliver k (c ∷ cs) (i ∷ due) g t =
      and_then (run_due k (callback_at (c ∷ cs) i) g t) (λ _ g' t'. deliver k (c ∷ cs) due g' t')

  abbrev pub state_of : Out S (Unit {0}) → S
  state_of (out _ g t) = g

  abbrev pub trace_of : Out S (Unit {0}) → Trace
  trace_of (out _ g t) = t

  unfoldable pub later_state : Kernel → List (Callback S) → S → Trace → S
  unfolding deliver
  later_state k cs g t = state_of (deliver k cs (k.interrupts t) g t)

  unfoldable pub later_trace : Kernel → List (Callback S) → S → Trace → Trace
  unfolding deliver
  later_trace k cs g t = trace_of (deliver k cs (k.interrupts t) g t)

  -- The entry points run while the kernel may run callbacks.
  abbrev pub interrupted : Kernel → List (Callback S) → Machine S
  interrupted k cs = record {
    kernel = k;
    state_after = later_state k cs;
    trace_after = later_trace k cs;
  }

module _ {S : Type 0} (k : Kernel) (p : Sample S) where
  -- `insmod` of a module whose `init` fails leaves it unloaded.
  pub after_init : Out S ℤ → State S
  after_init (out ret g t) = state (if is_zero ret then loaded g else unloaded) t

  pub after_exit : Out S (Unit {0}) → State S
  after_exit (out _ g t) = state unloaded t

  pub after_callback : Out S (Unit {0}) → State S
  after_callback (out _ g t) = state (loaded g) t

  -- An action that the phase does not allow changes nothing.
  pub act : Action → Phase S → Trace → State S
  act insmod unloaded t = after_init (p.init (interrupted k p.interrupts) p.initial t)
  act rmmod (loaded g) t = after_exit (p.exit (interrupted k p.interrupts) g t)
  act (run_callback i) (loaded g) t = after_callback (run_due k (callback_at p.callbacks i) g t)
  act insmod (loaded g) t = state (loaded g) t
  act rmmod unloaded t = state unloaded t
  act (run_callback i) unloaded t = state unloaded t

  -- The actions of a history, the newest first.
  pub history : List Action → State S
  history [] = state unloaded []
  history (a ∷ rest) = act a (history rest).phase (history rest).trace
