-- ===== src/Hardirq/DisableIrq/Merge.antt =====
-- The raises made while the line is disabled merge into one run of the handler.
use linux_kernel_samples.Base.{
  ℕ, zero, suc, ◌+◌, ◌%◌, ◌^◌, ◌≡◌, refl, sym, ◌∙◌, Bool, true, false, some, List, [], ◌∷◌, ℤ, pos,
  is_zero, is_err, arith, String, same_int_refl, ◌||◌,
}
use linux_kernel_samples.Kernel.{info, log, Call, call, Trace, Kernel, Returns}
use linux_kernel_samples.Kernel.Contract.{ledger, Resource, ledger_of}
use linux_kernel_samples.Kernel.Hoare.{bind}
use linux_kernel_samples.Sample.{later_state, later_trace, interrupted}
use linux_kernel_samples.Sample.Interrupts.{Holds}
use linux_kernel_samples.Hardirq.DisableIrq.{
  Globals, raise_interval_ms, disabled_raise_count, interruptible, raise_loop, raise_while_disabled,
  disable_irq_module_init, held, callbacks,
}
use linux_kernel_samples.Hardirq.DisableIrq.Pending.{DeliversPending, pending}
use linux_kernel_samples.Hardirq.DisableIrq.Deliver.{
  Small, same_domain, same_virq, still-Small, same_ledger, calls,
}
use linux_kernel_samples.Hardirq.DisableIrq.Owed.{
  quiet_at, owed, same_count, same_pending, same_owed, sleep_delivers,
}

-- No call of a load fails.
pub record Accepts (k : Kernel) : Type 0 where
  pub domains : (t : Trace) (n : ℕ) → is_err (k.answer t (Call.irq_domain_create_sim n)) ≡ false
  pub mappings :
      (t : Trace) (d : ℤ) (n : ℕ) → is_zero (k.answer t (Call.irq_create_mapping d n)) ≡ false
  pub requests :
      (t : Trace) (q : ℤ) (f n : String) → is_zero (k.answer t (Call.request_irq q f n)) ≡ true
  pub raises : (t : Trace) (q : ℤ) → is_zero (k.answer t (Call.raise_irq q)) ≡ true

abbrev is_suc : ℕ → Bool
is_suc zero = false
is_suc (suc n) = true

abbrev masked_held : Globals → List Resource
masked_held g = Resource.masked g.gs_virq ∷ held g

-- The line is disabled as before, the handler has not run, and this is what is pending.
abbrev Waiting : Globals → Bool → Globals → Trace → Type 0
Waiting g waits g' t' =
    Small g'
    × (g'.gs_virq ≡ g.gs_virq)
    × (g'.gs_sim_domain ≡ g.gs_sim_domain)
    × Holds [] (masked_held g) t'
    × (g'.gs_handler_run_count ≡ g.gs_handler_run_count)
    × (pending t' ≡ waits)

abbrev Merged : Globals → ℤ → Globals → Trace → Type 0
Merged g ret g' t' =
    (ret ≡ pos 0) × (g'.gs_handler_run_count ≡ (g.gs_handler_run_count + 1) % 2 ^ 32)

module _ (k : Kernel) (ok : Accepts k) (h : DeliversPending k) where
  raise_loop-Waiting :
      (left n : ℕ) (g : Globals) (t : Trace)
      → Small g
      → Holds [] (masked_held g) t
      → Returns
          (λ ret g' t'. (is_zero ret ≡ true) × Waiting g (pending t || is_suc left) g' t')
          (raise_loop left n (interrupted k callbacks) g t)
  unfolding raise_loop interruptible
  raise_loop-Waiting zero n g t small at = (refl, (small, refl, refl, at, refl, ground arith))
  raise_loop-Waiting (suc left) n g t small at = grind (
    calls,
    same_int_refl,
    ok.raises,
    same_count k h,
    same_pending k h,
    raise_loop-Waiting left (n + 1),
  )

  -- From the loop on: what is pending is delivered by the end of the sleep.
  wake :
      (q v w : ℤ) (g : Globals) (t : Trace)
      → Small g
      → Holds [] (masked_held g) t
      → q ≡ g.gs_virq
      → pending t ≡ true
      → (later_state k callbacks (later_state k callbacks g (call (Call.enable_irq q) v ∷ t)) (
          call (Call.msleep raise_interval_ms) w
          ∷ later_trace k callbacks g (call (Call.enable_irq q) v ∷ t))).gs_handler_run_count
        ≡ (g.gs_handler_run_count + 1) % 2 ^ 32
  wake q v w g t small at same waits =
      let t1 : Trace = call (Call.enable_irq q) v ∷ t in
      let g1 : Globals = later_state k callbacks g t1 in
      let t2 : Trace = call (Call.msleep raise_interval_ms) w ∷ later_trace k callbacks g t1 in
      let freed : ledger t1 ≡ some (ledger_of [] (held g)) = rw (at, same) (simp same_int_refl) in
      let small1 : Small g1 = still-Small k g t1 small (rw freed refl) in
      let slept : ledger t2 ≡ some (ledger_of [] (held g)) =
        rw (same_ledger k g t1 small (rw freed refl), freed) refl in
      let due : owed g t1 ≡ (g.gs_handler_run_count + 1) % 2 ^ 32 = rw waits refl in
      let delivered : owed (later_state k callbacks g1 t2) (later_trace k callbacks g1 t2)
          ≡ (later_state k callbacks g1 t2).gs_handler_run_count =
        rw
          (sleep_delivers k h raise_interval_ms w g1 (later_trace k callbacks g t1) small1
            (rw slept refl))
          (omega (arith, still-Small k g1 t2 small1 (rw slept refl))) in
      sym delivered ∙ same_owed k h g1 t2 small1 ∙ same_owed k h g t1 small ∙ due

  raise_while_disabled-Merged :
      (start g : Globals) (t : Trace)
      → Small g
      → Holds [] (held g) t
      → g.gs_handler_run_count ≡ start.gs_handler_run_count
      → Returns (Merged start) (raise_while_disabled (interrupted k callbacks) g t)
  unfolding raise_while_disabled interruptible
  raise_while_disabled-Merged start g t small at same =
      let t1 : Trace =
        call (Call.disable_irq g.gs_virq) (k.answer t (Call.disable_irq g.gs_virq)) ∷ t in
      let g1 : Globals = later_state k callbacks g t1 in
      let quiet1 : quiet_at (ledger t1) (pending t1) ≡ true = rw at (simp same_int_refl) in
      let at1 : Holds [] (masked_held g) t1 = rw at (simp same_int_refl) in
      let masked : Holds [] (masked_held g) (later_trace k callbacks g t1) =
        same_ledger k g t1 small (rw at1 refl) ∙ at1 in
      let same_held : masked_held g1 ≡ masked_held g =
        rw (same_virq k g t1 small (rw at1 refl), same_domain k g t1 small (rw at1 refl)) refl in
      bind
        (λ ret g' t'.
          (is_zero ret ≡ true) × Waiting g1 (pending (later_trace k callbacks g t1) || true) g' t')
        (Merged start)
        (raise_loop disabled_raise_count 1 (interrupted k callbacks) g1 (
          log info "irq disabled; raises now only set IRQS_PENDING" []
          ∷ later_trace k callbacks g t1))
        _
        (raise_loop-Waiting disabled_raise_count 1 g1
          (log info "irq disabled; raises now only set IRQS_PENDING" []
            ∷ later_trace k callbacks g t1)
          (still-Small k g t1 small (rw at1 refl)) (rw same_held (rw masked)))
        λ ret g2 t2 (z, (small2, virq2, domain2, at2, count2, waits2)). rw z (
          refl,
          wake g2.gs_virq _ _ g2
                (log info "calling enable_irq -- the pending irq is delivered now" [] ∷ t2) small2
                (rw (virq2, domain2) (rw at2)) refl (waits2 ∙ ground arith)
              ∙ rw (count2, same_count k h g t1 small quiet1, same) refl,
        )

  -- Five raises while the line is disabled, on a kernel that keeps one pending bit, and that may run the
  -- handler at every call: the load succeeds, and the handler has run exactly once more than before.
  pub disable_irq_module_init-Merged :
      (g : Globals) (t : Trace)
      → Small g
      → Holds [] [] t
      → Returns (Merged g) (disable_irq_module_init (interrupted k callbacks) g t)
  unfolding disable_irq_module_init
  disable_irq_module_init-Merged g t small at =
      rw (ok.domains, ok.mappings, ok.requests)
        (grind (calls, same_int_refl, same_count k h, raise_while_disabled-Merged g))
