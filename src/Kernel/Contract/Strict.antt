-- ===== src/Kernel/Contract/Strict.antt =====
-- The contract with `msleep` in atomic context forgiven, or not.
use linux_kernel_samples.Base.{
  ◌≡◌, refl, Bool, true, false, ◌&&◌, ◌||◌, Option, none, some, List, [], ◌∷◌, if◌then◌else◌,
}
use linux_kernel_samples.Kernel.{Context, Event, call, log, context_line, enter, leave, Trace}
use linux_kernel_samples.Kernel.Contract.{
  Resource, Ledger, ledger_of, with_held, sleeps_in, is_msleep, apply, effect, permit_in, permit,
  ledger,
}

-- The ledger, and if not `strict` one that forgives `msleep` in atomic context.
abbrev pub seen : Bool → Option Ledger → Option Ledger
seen true o = o
seen false none = none
seen false (some l) = some (ledger_of l.contexts l.held)

unfoldable pub ledger_in : Bool → Trace → Option Ledger
ledger_in strict t = seen strict (ledger t)

seen-with_held :
    (cs : List Context) (s b : Bool) (o : Option (List Resource))
    → seen false (with_held cs (s || b) o) ≡ seen false (with_held cs b o)
seen-with_held cs s b none = refl
seen-with_held cs s b (some rs) = refl

if-seen :
    (b : Bool) (x y : Option Ledger)
    → seen false x ≡ seen false y
    → seen false (if b then none else x) ≡ seen false (if b then none else y)
if-seen true x y e = refl
if-seen false x y e = e

seen-permit_in :
    (cs : List Context) (rs : List Resource) (s : Bool) (e : Event)
    → seen false (permit_in cs rs s e) ≡ seen false (permit_in cs rs false e)
seen-permit_in cs rs s (call c v) =
    if-seen _ _ _ (seen-with_held cs s (sleeps_in cs rs c && is_msleep c) (apply (effect c v) rs))
seen-permit_in cs rs s (log l m args) = refl
seen-permit_in cs rs s (context_line m a b c) = refl
seen-permit_in cs rs s (enter c) = refl
seen-permit_in [] rs s leave = refl
seen-permit_in (c ∷ cs) rs s leave = refl

pub seen-permit :
    (strict : Bool) (e : Event) (o : Option Ledger)
    → seen strict (permit e o) ≡ seen strict (permit e (seen strict o))
seen-permit true e o = refl
seen-permit false e none = refl
seen-permit false e (some l) = seen-permit_in l.contexts l.held l.slept e

pub ledger_in-step :
    (strict : Bool) (e : Event) (t : Trace)
    → ledger_in strict (e ∷ t) ≡ seen strict (permit e (ledger_in strict t))
unfolding ledger_in
ledger_in-step strict e t = seen-permit strict e (ledger t)

pub seen-ledger_of :
    (strict : Bool) (cs : List Context) (rs : List Resource)
    → seen strict (some (ledger_of cs rs)) ≡ some (ledger_of cs rs)
seen-ledger_of true cs rs = refl
seen-ledger_of false cs rs = refl
