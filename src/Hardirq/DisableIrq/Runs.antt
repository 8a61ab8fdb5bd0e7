-- ===== src/Hardirq/DisableIrq/Runs.antt =====
-- How often the handler runs while a call lasts, and what that leaves of the pending bit.
use mathlib.Core.Path.{subst}
use native.Mathlib.Decide.{ℕ_discrete}
use linux_kernel_samples.Base.{
  String, ℤ, ℕ, zero, suc, ◌+◌, ◌%◌, ◌^◌, ◌<◌, ◌≡◌, ◌≢◌, refl, ◌∙◌, Bool, Bool-cases, inl, inr,
  true, false, Option, none, some, List, [], ◌∷◌, arith, ltb, if◌then◌else◌,
}
use linux_kernel_samples.Kernel.{
  Context, hardirq, softirq, Level, log, context_line, enter, leave, Trace, Kernel, Returns,
}
use linux_kernel_samples.Kernel.Hoare.{bind, mono}
use linux_kernel_samples.Kernel.Contract.{permit, Ledger, ledger, irq_line}
use linux_kernel_samples.Sample.{
  discard, run, may_interrupt, callback_at, run_due, deliver, later_state, later_trace,
}
use linux_kernel_samples.Sample.Interrupts.{of-Returns}
use linux_kernel_samples.Hardirq.DisableIrq.{Globals, disable_irq_top_half, callbacks}
use linux_kernel_samples.Hardirq.DisableIrq.Pending.{pending, bit, picks, runs}

-- After `n` runs of the handler.
pub record Ran (n : ℕ) (g : Globals) (t : Trace) (g' : Globals) (t' : Trace) : Type 0 where
  pub counted : g'.gs_handler_run_count ≡ (g.gs_handler_run_count + n) % 2 ^ 32
  pub same_ledger : ledger t' ≡ ledger t
  pub cleared : n ≡ 0 → pending t' ≡ pending t
  pub taken : n ≢ 0 → pending t' ≡ false

count-add :
    (c n m c1 c2 : ℕ) → c1 ≡ (c + n) % 2 ^ 32 → c2 ≡ (c1 + m) % 2 ^ 32 → c2 ≡ (c + (n + m)) % 2 ^ 32
count-add c n m c1 c2 e f = omega arith

Ran-trans :
    (n m : ℕ) {g g1 g2 : Globals} {t t1 t2 : Trace}
    → Ran n g t g1 t1
    → Ran m g1 t1 g2 t2
    → Ran (n + m) g t g2 t2
Ran-trans n m a b = record {
  counted = count-add _ n m _ _ a.counted b.counted;
  same_ledger = b.same_ledger ∙ a.same_ledger;
  cleared = λ z. b.cleared (omega arith) ∙ a.cleared (omega arith);
  taken = λ nz. elim (ℕ_discrete m 0) [
    | yes z ↦ b.cleared z ∙ a.taken (λ e. nz (omega (arith, e, z)))
    | no some_run ↦ b.taken some_run
  ];
}

-- Entering and leaving a callback without a call in between changes no ledger.
enter-leave : (c : Context) (o : Option Ledger) → permit leave (permit (enter c) o) ≡ o
enter-leave c none = refl
enter-leave c (some l) = refl

log-permit :
    (l : Level) (m : String) (args : List ℤ) (o : Option Ledger) → permit (log l m args) o ≡ o
log-permit l m args none = refl
log-permit l m args (some x) = refl

context-permit :
    (m : String) (a b c : Bool) (o : Option Ledger) → permit (context_line m a b c) o ≡ o
context-permit m a b c none = refl
context-permit m a b c (some x) = refl

skip-Ran : (g : Globals) (t : Trace) → g.gs_handler_run_count < 2 ^ 32 → Ran 0 g t g t
skip-Ran g t small = record {
  counted = omega arith;
  same_ledger = refl;
  cleared = λ _. refl;
  taken = λ nz. absurd (nz refl);
}

handler-Ran :
    (k : Kernel) (c : Context) (g : Globals) (t : Trace)
    → Returns
        (λ _ g' t'. Ran 1 g t g' t')
        (run k (record { context = c; source = irq_line; body = discard disable_irq_top_half }) g t)
unfolding disable_irq_top_half
handler-Ran k c g t = record {
  counted = refl;
  same_ledger = simp (enter-leave, log-permit, context-permit);
  cleared = λ z. absurd (omega arith);
  taken = λ _. refl;
}

run_due-Ran :
    (k : Kernel) (i : ℕ) (g : Globals) (t : Trace)
    → g.gs_handler_run_count < 2 ^ 32
    → may_interrupt irq_line (ledger t) ≡ true
    → Returns (λ _ g' t'. Ran (bit (ltb i 2)) g t g' t') (run_due k (callback_at callbacks i) g t)
run_due-Ran k zero g t small live = rw live (handler-Ran k hardirq g t)
run_due-Ran k (suc zero) g t small live = rw live (handler-Ran k softirq g t)
run_due-Ran k (suc (suc i)) g t small live =
    let beyond : bit (ltb (suc (suc i)) 2) ≡ 0 = ground arith in rw beyond (skip-Ran g t small)

idle_due-Ran :
    (k : Kernel) (i : ℕ) (g : Globals) (t : Trace)
    → g.gs_handler_run_count < 2 ^ 32
    → may_interrupt irq_line (ledger t) ≡ false
    → Returns (λ _ g' t'. Ran 0 g t g' t') (run_due k (callback_at callbacks i) g t)
idle_due-Ran k zero g t small idle = rw idle (skip-Ran g t small)
idle_due-Ran k (suc zero) g t small idle = rw idle (skip-Ran g t small)
idle_due-Ran k (suc (suc i)) g t small idle = skip-Ran g t small

abbrev runs_of : Option Ledger → ℕ → ℕ
runs_of o n = if may_interrupt irq_line o then n else 0

due-Ran :
    (k : Kernel) (i : ℕ) (g : Globals) (t : Trace)
    → g.gs_handler_run_count < 2 ^ 32
    → Returns
        (λ _ g' t'. Ran (runs_of (ledger t) (bit (ltb i 2))) g t g' t')
        (run_due k (callback_at callbacks i) g t)
due-Ran k i g t small = elim (Bool-cases (may_interrupt irq_line (ledger t))) [
  | inl live ↦ rw live (run_due-Ran k i g t small live)
  | inr idle ↦ rw idle (idle_due-Ran k i g t small idle)
]

runs-add : (o : Option Ledger) (n m : ℕ) → runs_of o n + runs_of o m ≡ runs_of o (n + m)
runs-add o n m = ground arith

small_after :
    {n : ℕ} {g g' : Globals} {t t' : Trace} → Ran n g t g' t' → g'.gs_handler_run_count < 2 ^ 32
small_after r = omega (arith, r.counted)

deliver-Ran :
    (k : Kernel) (due : List ℕ) (g : Globals) (t : Trace)
    → g.gs_handler_run_count < 2 ^ 32
    → Returns
        (λ _ g' t'. Ran (runs_of (ledger t) (picks due)) g t g' t')
        (deliver k callbacks due g t)
unfolding deliver
deliver-Ran k [] g t small =
    let nothing : runs_of (ledger t) 0 ≡ 0 = ground arith in rw nothing (skip-Ran g t small)
deliver-Ran k (i ∷ due) g t small =
    bind (λ _ g' t'. Ran (runs_of (ledger t) (bit (ltb i 2))) g t g' t')
      (λ _ g' t'. Ran (runs_of (ledger t) (picks (i ∷ due))) g t g' t')
      (run_due k (callback_at callbacks i) g t) _ (due-Ran k i g t small)
      λ _ g1 t1 first.
        mono (λ _ g' t'. Ran (runs_of (ledger t1) (picks due)) g1 t1 g' t')
          (λ _ g' t'. Ran (runs_of (ledger t) (picks (i ∷ due))) g t g' t')
          (deliver k callbacks due g1 t1) (deliver-Ran k due g1 t1 (small_after first))
          λ _ g2 t2 rest. rw (← runs-add (ledger t) (bit (ltb i 2)) (picks due)) (
            Ran-trans (runs_of (ledger t) (bit (ltb i 2))) (runs_of (ledger t) (picks due)) first
              (subst (λ o. Ran (runs_of o (picks due)) g1 t1 g2 t2) first.same_ledger rest))

-- What a call leaves, once the handler has run.
pub later-Ran :
    (k : Kernel) (g : Globals) (t : Trace)
    → g.gs_handler_run_count < 2 ^ 32
    → Ran (runs k t) g t (later_state k callbacks g t) (later_trace k callbacks g t)
unfolding later_state later_trace
later-Ran k g t small =
    of-Returns (Ran (runs k t) g t) (deliver k callbacks (k.interrupts t) g t)
      (deliver-Ran k (k.interrupts t) g t small)
