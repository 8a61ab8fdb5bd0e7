-- ===== src/Tests/Machine.antt =====
-- A kernel whose calls all succeed, and which keeps one pending bit.
use linux_kernel_samples.Base.{
  ℕ, ◌≡◌, refl, ◌≤◌, Bool, true, false, not, ◌&&◌, Option, none, some, List, [], ◌∷◌, ℤ, pos, arith,
  if◌then◌else◌,
}
use linux_kernel_samples.Kernel.{Call, call, Trace, Kernel}
use linux_kernel_samples.Kernel.Contract.{Ledger, ledger, ledger_of, Resource, irq_line}
use linux_kernel_samples.Sample.{is_live}
use linux_kernel_samples.Hardirq.DisableIrq.Pending.{DeliversPending, is_masked, pending, bit, runs}
use linux_kernel_samples.Hardirq.DisableIrq.Merge.{Accepts}

abbrev pub reply : Call → ℤ
reply (Call.irq_domain_create_sim n) = pos 1
reply (Call.irq_create_mapping d n) = pos 1
reply (Call.alloc_workqueue n b) = pos 1
reply (Call.debugfs_create_dir n) = pos 1
reply (Call.kmalloc n f) = pos 1
reply _ = pos 0

abbrev is_enabled : Option Ledger → Bool
is_enabled none = false
is_enabled (some l) = not (is_masked l.held)

-- The handler runs in softirq context, as a resend of the interrupt does.
abbrev due : Trace → List ℕ
due t = if pending t && is_enabled (ledger t) then 1 ∷ [] else []

abbrev pub machine : Kernel
machine = record {
  answer = λ t c. reply c;
  interrupts = due;
  in_hardirq = λ t. false;
  in_softirq = λ t. false;
  in_task = λ t. true;
}

pub machine-Accepts : Accepts machine
machine-Accepts = record {
  domains = λ t n. refl;
  mappings = λ t d n. refl;
  requests = λ t q f n. refl;
  raises = λ t q. refl;
}

due-merges : (t : Trace) → runs machine t ≤ bit (pending t)
due-merges t = ground arith

due-holds_back :
    (t : Trace) {held : List Resource}
    → ledger t ≡ some (ledger_of [] held)
    → is_masked held ≡ true
    → runs machine t ≡ 0
due-holds_back t at masked = rw (at, masked) (ground arith)

due-is_prompt :
    (t : Trace) (n : ℕ) (v : ℤ) {held : List Resource}
    → ledger (call (Call.msleep n) v ∷ t) ≡ some (ledger_of [] held)
    → is_live irq_line held ≡ true
    → is_masked held ≡ false
    → runs machine (call (Call.msleep n) v ∷ t) ≡ bit (pending t)
due-is_prompt t n v at live free = rw (at, live, free) (ground arith)

pub machine-DeliversPending : DeliversPending machine
machine-DeliversPending = record {
  merges = due-merges;
  holds_back = due-holds_back;
  is_prompt = due-is_prompt;
}
