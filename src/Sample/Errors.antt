-- ===== src/Sample/Errors.antt =====
-- What a load returns: 0, or the error of the first call that failed.
use linux_kernel_samples.Base.{◌≡◌, [], ◌∷◌, ℤ, pos, is_zero, is_err, if◌then◌else◌}
use linux_kernel_samples.Kernel.{enodev, enomem, Call, call, Trace, Kernel, quiet, Returns}
use linux_kernel_samples.Sample.{Sample}

abbrev unless_zero : ℤ → ℤ
unless_zero v = if is_zero v then pos 0 else v

abbrev if_err : ℤ → ℤ
if_err v = if is_err v then v else pos 0

-- The error that the result of a call stands for.
abbrev pub error_of : Call → ℤ → ℤ
error_of (Call.irq_domain_create_sim n) v = if_err v
error_of (Call.irq_create_mapping d n) v = if is_zero v then enodev else pos 0
error_of (Call.request_irq q f n) v = unless_zero v
error_of (Call.request_threaded_irq q f g n) v = unless_zero v
error_of (Call.raise_irq q) v = unless_zero v
error_of (Call.alloc_workqueue n b) v = if is_zero v then enomem else pos 0
error_of (Call.smpboot_register n) v = unless_zero v
error_of (Call.debugfs_create_dir n) v = if_err v
error_of (Call.nf_register_net_hook f) v = unless_zero v
error_of _ v = pos 0

abbrev pub first_error : Trace → ℤ
first_error [] = pos 0
first_error (call c v ∷ t) = if is_zero (first_error t) then error_of c v else first_error t
first_error (e ∷ t) = first_error t

-- The result of a load that no callback interrupts.
abbrev pub Reports : {S : Type 0} → Kernel → Sample S → Type 0
Reports k p = Returns (λ ret g t. ret ≡ first_error t) (p.init (quiet k) p.initial [])
