-- ===== src/Kernel/Hoare.antt =====
-- How postconditions compose.
use linux_kernel_samples.Kernel.{Trace, Out, out, and_then, Returns}

module _ {S A : Type 0} where
  pub bind :
      {B : Type 0} (P : A → S → Trace → Type 0) (Q : B → S → Trace → Type 0) (o : Out S A)
      (f : A → S → Trace → Out S B)
      → Returns P o
      → ((a : A) (s : S) (t : Trace) → P a s t → Returns Q (f a s t))
      → Returns Q (and_then o f)
  bind P Q (out a s t) f p next = next a s t p

  pub mono :
      (P Q : A → S → Trace → Type 0) (o : Out S A)
      → Returns P o
      → ((a : A) (s : S) (t : Trace) → P a s t → Q a s t)
      → Returns Q o
  mono P Q (out a s t) p weaken = weaken a s t p
