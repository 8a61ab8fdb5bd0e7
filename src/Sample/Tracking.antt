-- ===== src/Sample/Tracking.antt =====
-- What holds between the variables and the trace, and each run of a callback keeps.
pub mod Histories
use linux_kernel_samples.Base.{
  ℕ, zero, suc, ◌≡◌, refl, ap, Bool, true, false, Option, none, some, List, [], ◌∷◌, Bool-cases,
  inl, inr, if◌then◌else◌,
}
use linux_kernel_samples.Kernel.{Trace, Kernel, Out, out, Returns}
use linux_kernel_samples.Kernel.Hoare.{bind}
use linux_kernel_samples.Kernel.Contract.{ledger, ledger_of}
use linux_kernel_samples.Sample.{
  Callback, may_interrupt, run, run_due, callback_at, deliver, later_state, later_trace,
}
use linux_kernel_samples.Sample.Interrupts.{Holds, of-Returns}

module _ {S : Type 0} (k : Kernel) (R : S → Trace → Type 0) where
  abbrev pub After : Out S (Unit {0}) → Type 0
  After o = Returns (λ _ g t. R g t) o

  abbrev pub AllTrack : List (Callback S) → Type 0
  AllTrack [] = Unit
  AllTrack (c ∷ cs) = ((g : S) (t : Trace) → R g t → After (run k c g t)) × AllTrack cs

  pub run_at-track :
      (cs : List (Callback S)) (i : ℕ) (g : S) (t : Trace)
      → AllTrack cs
      → R g t
      → After (run_due k (callback_at cs i) g t)
  run_at-track [] i g t all r = r
  run_at-track (c ∷ cs) zero g t all r = elim (Bool-cases (may_interrupt c.source (ledger t))) [
    | inl due ↦ rw due (all.0 g t r)
    | inr idle ↦ rw idle r
  ]
  run_at-track (c ∷ cs) (suc i) g t all r = run_at-track cs i g t all.1 r

  deliver-track :
      (cs : List (Callback S)) (due : List ℕ) (g : S) (t : Trace)
      → AllTrack cs
      → R g t
      → After (deliver k cs due g t)
  unfolding deliver
  deliver-track [] due g t all r = r
  deliver-track (c ∷ cs) [] g t all r = r
  deliver-track (c ∷ cs) (i ∷ due) g t all r =
      bind (λ _ g' t'. R g' t') (λ _ g' t'. R g' t') (run_due k (callback_at (c ∷ cs) i) g t) _
        (run_at-track (c ∷ cs) i g t all r) λ _ g' t' r'. deliver-track (c ∷ cs) due g' t' all r'

  -- However often the callbacks interrupt a call.
  pub later-track :
      (cs : List (Callback S)) (g : S) (t : Trace)
      → AllTrack cs
      → R g t
      → R (later_state k cs g t) (later_trace k cs g t)
  unfolding later_state later_trace
  later-track cs g t all r =
      of-Returns R (deliver k cs (k.interrupts t) g t) (deliver-track cs (k.interrupts t) g t all r)

module _ {S : Type 0} (k : Kernel) (g : S) (t : Trace) (nothing : Holds [] [] t) where
  run_at-idle : (cs : List (Callback S)) (i : ℕ) → run_due k (callback_at cs i) g t ≡ out tt g t
  run_at-idle [] i = refl
  run_at-idle (c ∷ cs) zero = rw nothing refl
  run_at-idle (c ∷ cs) (suc i) = run_at-idle cs i

  deliver-idle : (cs : List (Callback S)) (due : List ℕ) → deliver k cs due g t ≡ out tt g t
  unfolding deliver
  deliver-idle [] due = refl
  deliver-idle (c ∷ cs) [] = refl
  deliver-idle (c ∷ cs) (i ∷ due) = rw (run_at-idle (c ∷ cs) i) (deliver-idle (c ∷ cs) due)

  -- Once the module holds nothing, nothing of it runs.
  pub later_trace-idle : (cs : List (Callback S)) → later_trace k cs g t ≡ t
  unfolding later_trace
  later_trace-idle cs = rw (deliver-idle cs (k.interrupts t))
