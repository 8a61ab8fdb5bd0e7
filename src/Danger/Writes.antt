-- ===== src/Danger/Writes.antt =====
-- What the two samples share: the values that are written to `danger_enabled`, and traces in which the
-- sleep that they allow is forgiven.
use mathlib.Core.Path.{subst}
use linux_kernel_samples.Base.{
  ◌≡◌, ap, sym, Bool, false, ◌||◌, some, List, [], ◌∷◌, arith, same_int_refl,
}
use linux_kernel_samples.Kernel.{Context, Trace, Out, out, Returns}
use linux_kernel_samples.Kernel.Contract.{ledger_of, Resource}
use linux_kernel_samples.Kernel.Contract.Strict.{ledger_in, ledger_in-step, seen-ledger_of}
use linux_kernel_samples.Sample.Blame.{load_error, load_error-log, load_error-context_line}
use linux_kernel_samples.Sample.Interrupts.{StaysIn, Frame}

-- Some write to `danger_enabled` sets it.
abbrev pub arms : List Bool → Bool
arms [] = false
arms (value ∷ values) = value || arms values

abbrev pub Held : Bool → List Context → List Resource → Trace → Type 0
Held strict cs rs t = ledger_in strict t ≡ some (ledger_of cs rs)

-- And the error that the load is to return is as it was.
abbrev pub HeldStays : Bool → List Context → List Resource → Trace → Trace → Type 0
HeldStays strict cs rs t t' = Held strict cs rs t' × (load_error t' ≡ load_error t)

pub ruleset trace =
    (arith, same_int_refl, ledger_in-step, seen-ledger_of, load_error-log, load_error-context_line)

-- Of a callback that leaves the variables alone.
pub unchanged :
    {S A : Type 0} (f : Frame S) (g : S) (t : Trace) (cs : List Context) (rs : List Resource)
    (o : Out S A)
    → f.Inv g
    → Returns (λ _ g' t'. (g' ≡ g) × HeldStays f.strict cs rs t t') o
    → Returns (λ _ g' t'. f.Inv g' × (f.core g' ≡ f.core g) × StaysIn f.strict cs rs t t') o
unfolding ledger_in
unchanged f g t cs rs (out a g' t') i (same, h) = (subst f.Inv (sym same) i, ap f.core same, h)
