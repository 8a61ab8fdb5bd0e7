-- ===== src/Hardirq/DisableIrq/Owed.antt =====
-- The runs of the handler so far, with the one that a pending irq is good for, over one call.
use native.Mathlib.Decide.{ℕ_discrete}
use linux_kernel_samples.Base.{
  ℕ, ◌+◌, ◌%◌, ◌^◌, ◌≡◌, refl, ◌∙◌, Bool, Bool-cases, inl, inr, true, false, Option, none, some,
  List, [], ◌∷◌, ℤ, arith, ◌||◌, not, ◌&&◌,
}
use linux_kernel_samples.Kernel.{Call, call, Context, Trace, Kernel}
use linux_kernel_samples.Kernel.Contract.{
  Ledger, ledger, Resource, irq_line, is_outermost, ledger_of, ledger_with,
}
use linux_kernel_samples.Sample.{is_live, may_interrupt, later_state, later_trace}
use linux_kernel_samples.Hardirq.DisableIrq.{Globals, callbacks}
use linux_kernel_samples.Hardirq.DisableIrq.Pending.{DeliversPending, is_masked, pending, bit, runs}
use linux_kernel_samples.Hardirq.DisableIrq.Deliver.{Small}
use linux_kernel_samples.Hardirq.DisableIrq.Runs.{Ran, later-Ran}

-- The line is disabled, in a trace that obeys the contract outside of every callback.
abbrev masked_at : Option Ledger → Bool
masked_at none = false
masked_at (some l) = (is_outermost l.contexts && is_masked l.held) && not l.slept

-- The line is disabled, or not requested, or nothing is pending.
abbrev pub quiet_at : Option Ledger → Bool → Bool
quiet_at o waits = masked_at o || (not (may_interrupt irq_line o) || not waits)

outermost :
    (l : Ledger)
    → is_outermost l.contexts ≡ true
    → l.slept ≡ false
    → some l ≡ some (ledger_of [] l.held)
outermost l e awake = go l.contexts l.held l.slept e awake
  where
    go :
        (cs : List Context) (rs : List Resource) (s : Bool)
        → is_outermost cs ≡ true
        → s ≡ false
        → some (ledger_with cs rs s) ≡ some (ledger_of [] rs)
    go [] rs true e awake = absurd (cc)
    go [] rs false e awake = refl
    go (c ∷ cs) rs s e awake = absurd (cc)

-- The runs so far, and the one that is due.
abbrev pub owed : Globals → Trace → ℕ
owed g t = (g.gs_handler_run_count + bit (pending t)) % 2 ^ 32

module _ (k : Kernel) (h : DeliversPending k) where
  masked-runs : (t : Trace) (o : Option Ledger) → ledger t ≡ o → masked_at o ≡ true → runs k t ≡ 0
  masked-runs t none e m = absurd (cc)
  masked-runs t (some l) e m =
      h.holds_back t (e ∙ outermost l (ground arith) (ground arith)) (ground arith)

  quiet-runs : (t : Trace) → quiet_at (ledger t) (pending t) ≡ true → runs k t ≡ 0
  quiet-runs t q = ground (arith, masked-runs t (ledger t) refl, h.merges t)

module _ (k : Kernel) (h : DeliversPending k) (g : Globals) (t : Trace) (small : Small g) where
  ran : Ran (runs k t) g t (later_state k callbacks g t) (later_trace k callbacks g t)
  ran = later-Ran k g t small

  pub same_count :
      quiet_at (ledger t) (pending t) ≡ true
      → (later_state k callbacks g t).gs_handler_run_count ≡ g.gs_handler_run_count
  same_count q = ran.counted ∙ rw (quiet-runs k h t q) (omega arith)

  pub same_pending :
      quiet_at (ledger t) (pending t) ≡ true → pending (later_trace k callbacks g t) ≡ pending t
  same_pending q = ran.cleared (quiet-runs k h t q)

  -- A run of the handler takes the pending bit.
  pub same_owed : owed (later_state k callbacks g t) (later_trace k callbacks g t) ≡ owed g t
  same_owed = elim (ℕ_discrete (runs k t) 0) [
    | yes z ↦ rw (ran.cleared z) (omega (arith, ran.counted, z))
    | no some_run ↦
        let waits : pending t ≡ true = ground (arith, h.merges t) in
        rw (ran.taken some_run, waits)
          (let once : runs k t ≡ 1 = ground (arith, h.merges t) in omega (arith, ran.counted, once))
  ]

  -- Nothing is pending after a sleep with the line enabled.
  slept : runs k t ≡ bit (pending t) → pending (later_trace k callbacks g t) ≡ false
  slept e = elim (Bool-cases (pending t)) [
    | inl p ↦ ran.taken (rw (e, p) (omega arith))
    | inr p ↦ ran.cleared (rw (e, p)) ∙ p
  ]

-- The line is requested and enabled, in a trace that obeys the contract outside of every callback.
abbrev enabled_at : Option Ledger → Bool
enabled_at none = false
enabled_at (some l) =
    (is_outermost l.contexts && (is_live irq_line l.held && not (is_masked l.held))) && not l.slept

enabled-prompt :
    (k : Kernel) (h : DeliversPending k) (t : Trace) (n : ℕ) (v : ℤ) (o : Option Ledger)
    → ledger (call (Call.msleep n) v ∷ t) ≡ o
    → enabled_at o ≡ true
    → runs k (call (Call.msleep n) v ∷ t) ≡ bit (pending t)
enabled-prompt k h t n v none e on = absurd (cc)
enabled-prompt k h t n v (some l) e on =
    h.is_prompt t n v (e ∙ outermost l (ground arith) (ground arith)) (ground arith) (ground arith)

pub sleep_delivers :
    (k : Kernel) (h : DeliversPending k) (n : ℕ) (v : ℤ) (g : Globals) (t : Trace)
    → Small g
    → enabled_at (ledger (call (Call.msleep n) v ∷ t)) ≡ true
    → pending (later_trace k callbacks g (call (Call.msleep n) v ∷ t)) ≡ false
sleep_delivers k h n v g t small on =
    slept k h g (call (Call.msleep n) v ∷ t) small
      (enabled-prompt k h t n v (ledger (call (Call.msleep n) v ∷ t)) refl on)
