-- ===== src/Sample/Interrupts.antt =====
-- What callbacks that keep their part leave of a state and of a trace, however often they run.
use linux_kernel_samples.Base.{
  ℕ, zero, suc, ◌≡◌, refl, sym, ◌∙◌, ap, Bool, true, false, not, ◌&&◌, Option, none, some, List, [],
  ◌∷◌, arith, Bool-cases, inl, inr, if◌then◌else◌,
}
use linux_kernel_samples.Kernel.{Context, enter, leave, Trace, Kernel, quiet, Out, out, Returns}
use linux_kernel_samples.Kernel.Hoare.{bind, mono}
use linux_kernel_samples.Kernel.Contract.{
  Resource, is_outermost, Ledger, ledger_of, ledger_with, ledger,
}
use linux_kernel_samples.Kernel.Contract.Strict.{seen, seen-permit, seen-ledger_of}
use linux_kernel_samples.Sample.Blame.{load_error, load_error-enter, load_error-leave}
use linux_kernel_samples.Sample.{
  Callback, is_live, may_interrupt, run, run_due, callback_at, deliver, state_of, trace_of,
  later_state, later_trace,
}

-- The trace obeys the contract, and these resources are held.
abbrev pub Holds : List Context → List Resource → Trace → Type 0
Holds cs rs t = ledger t ≡ some (ledger_of cs rs)

-- The same, but for `msleep` in atomic context, which only `strict` rules out.
abbrev pub HoldsIn : Bool → List Context → List Resource → Trace → Type 0
HoldsIn strict cs rs t = seen strict (ledger t) ≡ some (ledger_of cs rs)

-- And the error that the load is to return is as it was.
abbrev pub StaysIn : Bool → List Context → List Resource → Trace → Trace → Type 0
StaysIn strict cs rs t t' = HoldsIn strict cs rs t' × (load_error t' ≡ load_error t)

abbrev pub Stays : List Context → List Resource → Trace → Trace → Type 0
Stays cs rs t t' = StaysIn true cs rs t t'

-- What the callbacks of a sample rely on, and what they keep.
pub record Frame (S : Type 0) : Type 1 where
  pub strict : Bool  -- they never call `msleep` in atomic context
  pub Inv : S → Type 0  -- of the variables
  pub core : S → S  -- the variables, less those that a callback writes
  pub safe : S → List Resource → Bool  -- what is held wherever a callback is registered

pub of-Returns :
    {S : Type 0} (P : S → Trace → Type 0) (o : Out S (Unit {0}))
    → Returns (λ _ g t. P g t) o
    → P (state_of o) (trace_of o)
of-Returns P (out a g t) h = h

entered :
    (strict : Bool) (c : Context) (t : Trace) (rs : List Resource)
    → HoldsIn strict [] rs t
    → HoldsIn strict (c ∷ []) rs (enter c ∷ t)
entered strict c t rs at =
    seen-permit strict (enter c) (ledger t) ∙ rw at (seen-ledger_of strict (c ∷ []) rs)

left :
    (strict : Bool) (c : Context) (t : Trace) (rs : List Resource)
    → HoldsIn strict (c ∷ []) rs t
    → HoldsIn strict [] rs (leave ∷ t)
left strict c t rs at = seen-permit strict leave (ledger t) ∙ rw at (seen-ledger_of strict [] rs)

module _ {S : Type 0} (f : Frame S) where
  abbrev pub safe_at : S → Option Ledger → Bool
  safe_at g none = true
  safe_at g (some l) = f.safe (f.core g) l.held && not l.slept

  -- A callback that runs while it is registered and where all is safe.
  abbrev pub KeepsHeld : Callback S → Type 0
  KeepsHeld c =
      (k : Kernel) (g : S) (t : Trace) (rs : List Resource)
      → f.Inv g
      → f.safe (f.core g) rs ≡ true
      → is_live c.source rs ≡ true
      → HoldsIn f.strict (c.context ∷ []) rs t
      → Returns
          (λ _ g' t'. f.Inv g' × (f.core g' ≡ f.core g) × StaysIn f.strict (c.context ∷ []) rs t t')
          (c.body (quiet k) g t)

  abbrev pub AllKeepHeld : List (Callback S) → Type 0
  AllKeepHeld [] = Unit
  AllKeepHeld (c ∷ cs) = KeepsHeld c × AllKeepHeld cs

  pub record Kept (g : S) (t : Trace) (g' : S) (t' : Trace) : Type 0 where
    pub inv : f.Inv g'
    pub same_core : f.core g' ≡ f.core g
    pub same_ledger : seen f.strict (ledger t') ≡ seen f.strict (ledger t)
    pub same_error : load_error t' ≡ load_error t

  run-Kept :
      (k : Kernel) (c : Callback S) (g : S) (t : Trace) (rs : List Resource)
      → KeepsHeld c
      → f.Inv g
      → f.safe (f.core g) rs ≡ true
      → is_live c.source rs ≡ true
      → HoldsIn f.strict [] rs t
      → Returns (λ _ g' t'. Kept g t g' t') (run k c g t)
  run-Kept k c g t rs keeps i safe live at =
      bind
        (λ _ g' t'.
          f.Inv g'
          × (f.core g' ≡ f.core g)
          × StaysIn f.strict (c.context ∷ []) rs (enter c.context ∷ t) t')
        (λ _ g' t'. Kept g t g' t') (c.body (quiet k) g (enter c.context ∷ t)) _
        (keeps k g (enter c.context ∷ t) rs i safe live (entered f.strict c.context t rs at))
        λ _ g' t' (i', same, (at', told)). record {
          inv = i';
          same_core = same;
          same_ledger = left f.strict c.context t' rs at' ∙ sym at;
          same_error = load_error-leave t' ∙ told ∙ load_error-enter c.context t;
        }

  outermost : (cs : List Context) → is_outermost cs ≡ true → cs ≡ []
  outermost [] e = refl
  outermost (c ∷ cs) e = cc

  skip-Kept : (g : S) (t : Trace) → f.Inv g → Kept g t g t
  skip-Kept g t i = record { inv = i; same_core = refl; same_ledger = refl; same_error = refl }

  safe_at-seen :
      (strict : Bool) (g : S) (l : Ledger)
      → safe_at g (seen strict (some l)) ≡ true
      → (f.safe (f.core g) l.held ≡ true)
        × (seen strict (some l) ≡ some (ledger_of l.contexts l.held))
  safe_at-seen true g l safe = (
    ground arith,
    let awake : l.slept ≡ false = ground arith in
        ap (λ (b : Bool). some (ledger_with l.contexts l.held b)) awake,
  )
  safe_at-seen false g l safe = (ground arith, refl)

  run_due-Kept :
      (k : Kernel) (c : Callback S) (g : S) (t : Trace) (o : Option Ledger)
      → ledger t ≡ o
      → KeepsHeld c
      → f.Inv g
      → safe_at g (seen f.strict o) ≡ true
      → Returns
          (λ _ g' t'. Kept g t g' t')
          (if may_interrupt c.source o then run k c g t else out tt g t)
  run_due-Kept k c g t none e keeps i safe = skip-Kept g t i
  run_due-Kept k c g t (some l) e keeps i safe =
      let (secure, plain) = safe_at-seen f.strict g l safe in
      elim (Bool-cases (may_interrupt c.source (some l))) [
        | inl due ↦ rw due (
            run-Kept k c g t l.held keeps i secure (ground arith) (
              ap (seen f.strict) e
              ∙ plain
              ∙ ap (λ (cs : List Context). some (ledger_of cs l.held))
                  (outermost l.contexts (ground arith))))
        | inr idle ↦ rw idle (skip-Kept g t i)
      ]

  pub run_at-Kept :
      (k : Kernel) (cs : List (Callback S)) (i : ℕ) (g : S) (t : Trace)
      → AllKeepHeld cs
      → f.Inv g
      → safe_at g (seen f.strict (ledger t)) ≡ true
      → Returns (λ _ g' t'. Kept g t g' t') (run_due k (callback_at cs i) g t)
  run_at-Kept k [] i g t all inv safe = skip-Kept g t inv
  run_at-Kept k (c ∷ cs) zero g t all inv safe = run_due-Kept k c g t (ledger t) refl all.0 inv safe
  run_at-Kept k (c ∷ cs) (suc i) g t all inv safe = run_at-Kept k cs i g t all.1 inv safe

  Kept-trans : {g g1 g2 : S} {t t1 t2 : Trace} → Kept g t g1 t1 → Kept g1 t1 g2 t2 → Kept g t g2 t2
  Kept-trans a b = record {
    inv = b.inv;
    same_core = b.same_core ∙ a.same_core;
    same_ledger = b.same_ledger ∙ a.same_ledger;
    same_error = b.same_error ∙ a.same_error;
  }

  safe_at-core : (g g' : S) (o : Option Ledger) → f.core g' ≡ f.core g → safe_at g' o ≡ safe_at g o
  safe_at-core g g' none e = refl
  safe_at-core g g' (some l) e = ap (λ (c : S). f.safe c l.held && not l.slept) e

  deliver-Kept :
      (k : Kernel) (cs : List (Callback S)) (due : List ℕ) (g : S) (t : Trace)
      → AllKeepHeld cs
      → f.Inv g
      → safe_at g (seen f.strict (ledger t)) ≡ true
      → Returns (λ _ g' t'. Kept g t g' t') (deliver k cs due g t)
  unfolding deliver
  deliver-Kept k [] due g t all inv safe = skip-Kept g t inv
  deliver-Kept k (c ∷ cs) [] g t all inv safe = skip-Kept g t inv
  deliver-Kept k (c ∷ cs) (i ∷ due) g t all inv safe =
      bind (λ _ g' t'. Kept g t g' t') (λ _ g' t'. Kept g t g' t')
        (run_due k (callback_at (c ∷ cs) i) g t) _ (run_at-Kept k (c ∷ cs) i g t all inv safe)
        λ _ g1 t1 kept.
          mono (λ _ g' t'. Kept g1 t1 g' t') (λ _ g' t'. Kept g t g' t')
            (deliver k (c ∷ cs) due g1 t1)
            (deliver-Kept k (c ∷ cs) due g1 t1 all kept.inv (
              safe_at-core g g1 (seen f.strict (ledger t1)) kept.same_core
              ∙ rw (kept.same_ledger) safe))
            λ _ g2 t2 rest. Kept-trans kept rest

  -- What a call of an entry point leaves, once the callbacks have run.
  pub later-Kept :
      (k : Kernel) (cs : List (Callback S)) (g : S) (t : Trace)
      → AllKeepHeld cs
      → f.Inv g
      → safe_at g (seen f.strict (ledger t)) ≡ true
      → Kept g t (later_state k cs g t) (later_trace k cs g t)
  unfolding later_state later_trace
  later-Kept k cs g t all inv safe =
      of-Returns (Kept g t) (deliver k cs (k.interrupts t) g t)
        (deliver-Kept k cs (k.interrupts t) g t all inv safe)
