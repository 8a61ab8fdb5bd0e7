-- ===== src/Sample/Blame.antt =====
-- The error that a load is to return, also where callbacks interrupt it: that of the first of its own
-- calls that failed.
use linux_kernel_samples.Base.{
  ◌≡◌, refl, Bool, true, false, ◌||◌, Option, none, some, String, List, [], ◌∷◌, ℤ, pos, is_zero,
  if◌then◌else◌,
}
use linux_kernel_samples.Kernel.{Call, Context, call, log, context_line, enter, leave, Level, Trace}
use linux_kernel_samples.Kernel.Contract.{Resource, Ledger, is_outermost, ledger}
use linux_kernel_samples.Kernel.Contract.Strict.{seen, ledger_in}
use linux_kernel_samples.Sample.Errors.{error_of}

abbrev pub is_empty : List Resource → Bool
is_empty [] = true
is_empty (r ∷ rs) = false

-- A call of a callback does not count, and one that is made with nothing held begins a load.
abbrev pub next_error : Option Ledger → Call → ℤ → ℤ → ℤ
next_error none c v e = e
next_error (some l) c v e =
    if is_outermost l.contexts
    then (if is_empty l.held || is_zero e then error_of c v else e)
    else e

unfoldable pub load_error : Trace → ℤ
load_error [] = pos 0
load_error (call c v ∷ t) = next_error (ledger t) c v (load_error t)
load_error (log l m args ∷ t) = load_error t
load_error (context_line m a b c ∷ t) = load_error t
load_error (enter c ∷ t) = load_error t
load_error (leave ∷ t) = load_error t

pub load_error-call :
    (c : Call) (v : ℤ) (t : Trace)
    → load_error (call c v ∷ t) ≡ next_error (ledger t) c v (load_error t)
unfolding load_error
load_error-call c v t = refl

next_error-seen :
    (strict : Bool) (o : Option Ledger) (c : Call) (v e : ℤ)
    → next_error o c v e ≡ next_error (seen strict o) c v e
next_error-seen true o c v e = refl
next_error-seen false none c v e = refl
next_error-seen false (some l) c v e = refl

pub load_error-call_in :
    (strict : Bool) (c : Call) (v : ℤ) (t : Trace)
    → load_error (call c v ∷ t) ≡ next_error (ledger_in strict t) c v (load_error t)
unfolding load_error ledger_in
load_error-call_in strict c v t = next_error-seen strict (ledger t) c v (load_error t)

pub load_error-log :
    (l : Level) (m : String) (args : List ℤ) (t : Trace)
    → load_error (log l m args ∷ t) ≡ load_error t
unfolding load_error
load_error-log l m args t = refl

pub load_error-context_line :
    (m : String) (a b c : Bool) (t : Trace) → load_error (context_line m a b c ∷ t) ≡ load_error t
unfolding load_error
load_error-context_line m a b c t = refl

pub load_error-enter : (c : Context) (t : Trace) → load_error (enter c ∷ t) ≡ load_error t
unfolding load_error
load_error-enter c t = refl

pub load_error-leave : (t : Trace) → load_error (leave ∷ t) ≡ load_error t
unfolding load_error
load_error-leave t = refl

pub ruleset blame = (load_error-call, load_error-log, load_error-context_line)
