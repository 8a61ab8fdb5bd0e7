-- ===== src/Concurrency/Competition/Cpus.antt =====
-- The interleavings that CPUs allow. A CPU runs one top half and one bottom half at most: activation `2c`
-- is the top half of CPU `c`, `2c + 1` its bottom half. While the top half runs, the bottom half that it
-- interrupted stands still, and no top half starts while the bottom half keeps the interrupts of its
-- CPU off, from `spin_lock_irqsave` to `spin_unlock_irqrestore`.
use linux_kernel_samples.Base.{
  ℕ, ◌+◌, ◌-◌, ◌%◌, ◌==◌, ◌≡◌, refl, Bool, true, false, not, ◌&&◌, ◌||◌, Bool-cases, inl, inr,
  arith, if◌then◌else◌,
}
use linux_kernel_samples.Concurrency.Competition.{
  SpinLock, Tasklet, Pc, idle, top_entered, update, System, Step, Reach, here, next, initial,
}
use linux_kernel_samples.Concurrency.Competition.Invariant.{in_critical}
use linux_kernel_samples.Concurrency.Competition.Moves.{is_entered}

abbrev pub is_top : ℕ → Bool
is_top i = i % 2 == 0

abbrev pub is_idle : Pc → Bool
is_idle idle = true
is_idle _ = false

-- Activation `i` may be started: a top half where the interrupts of its CPU are on, a bottom half where
-- no top half runs.
abbrev may_start : (ℕ → Pc) → ℕ → Pc → Bool
may_start pc i top_entered = is_top i && not (in_critical (pc (i + 1)))
may_start pc i p = not (is_top i) && is_idle (pc (i - 1))

-- Activation `i` runs on its CPU: no top half has interrupted it.
abbrev pub runs : (ℕ → Pc) → ℕ → Bool
runs pc i = is_top i || is_idle (pc (i - 1))

-- Its CPU lets activation `i` step to `p`.
abbrev pub allows : (ℕ → Pc) → ℕ → Pc → Bool
allows pc i p = if is_entered p then may_start pc i p else runs pc i && not (is_idle (pc i))

-- Where a top half runs, it has not interrupted a critical section.
abbrev pub Masked : (ℕ → Pc) → Type 0
Masked pc = (i : ℕ) → is_top i ≡ true → (is_idle (pc i) || not (in_critical (pc (i + 1)))) ≡ true

may_start-top :
    (pc : ℕ → Pc) (i : ℕ) (p : Pc)
    → may_start pc i p ≡ true
    → is_top i ≡ true
    → in_critical (pc (i + 1)) ≡ false
may_start-top pc i top_entered e top = ground (arith, e)
may_start-top pc i p e top = absurd (ground (arith, e, top))

may_start-bottom :
    (pc : ℕ → Pc) (i : ℕ) (p : Pc)
    → may_start pc i p ≡ true
    → is_top i ≡ false
    → is_idle (pc (i - 1)) ≡ true
may_start-bottom pc i top_entered e bottom = absurd (ground (arith, e, bottom))
may_start-bottom pc i p e bottom = ground (arith, e)

allows-top :
    (pc : ℕ → Pc) (i : ℕ) (p : Pc)
    → Masked pc
    → allows pc i p ≡ true
    → is_top i ≡ true
    → in_critical (pc (i + 1)) ≡ false
allows-top pc i p masked e top = elim (Bool-cases (is_entered p)) [
  | inl starts ↦ may_start-top pc i p (rw starts at e) top
  | inr steps ↦ let busy = rw steps at e in let m = masked i top in ground (arith, busy, m)
]

allows-bottom :
    (pc : ℕ → Pc) (i : ℕ) (p : Pc)
    → allows pc i p ≡ true
    → is_top i ≡ false
    → is_idle (pc (i - 1)) ≡ true
allows-bottom pc i p e bottom = elim (Bool-cases (is_entered p)) [
  | inl starts ↦ may_start-bottom pc i p (rw starts at e) bottom
  | inr steps ↦ let busy = rw steps at e in ground (arith, busy, bottom)
]

update-Masked :
    (pc : ℕ → Pc) (i : ℕ) (p : Pc) → Masked pc → allows pc i p ≡ true → Masked (update pc i p)
update-Masked pc i p masked e j top = elim (Bool-cases (j == i)) [
  | inl same ↦
      let at : j ≡ i = ground (arith, same) in
      let apart : (j + 1 == i) ≡ false = ground (arith, same) in
      let open_ : in_critical (pc (j + 1)) ≡ false =
        rw at (allows-top pc i p masked e (rw at at top)) in
      rw (apart, open_) (ground arith)
  | inr other ↦ elim (Bool-cases (j + 1 == i)) [
    | inl above ↦
        let at : i - 1 ≡ j = ground (arith, above) in
        let bottom : is_top i ≡ false = ground (arith, above, top) in
        let free = rw at at (allows-bottom pc i p e bottom) in rw (other, free)
    | inr apart ↦ rw (other, apart) (masked j top)
  ]
]

module _ (spin : SpinLock) (soft : Tasklet) where
  -- A step of activation `i` to `p` that its CPU allows.
  pub data CpuStep (s t : System spin soft) : Type 0 where
    on_cpu :
        (i : ℕ) (p : Pc)
        → Step spin soft s t
        → t.pc ≡ update s.pc i p
        → allows s.pc i p ≡ true
        → CpuStep s t

  pub data CpuReach : System spin soft → Type 0 where
    boot : CpuReach (initial spin soft)
    later : {s t : System spin soft} → CpuReach s → CpuStep s t → CpuReach t

  pub CpuReach-Reach : {s : System spin soft} → CpuReach s → Reach spin soft s
  CpuReach-Reach boot = here
  CpuReach-Reach (later r (on_cpu i p one e ok)) = next (CpuReach-Reach r) one

  pub CpuReach-Masked : {s : System spin soft} → CpuReach s → Masked s.pc
  CpuReach-Masked boot = λ i top. refl
  CpuReach-Masked (later {s} r (on_cpu i p one e ok)) =
      rw e (update-Masked s.pc i p (CpuReach-Masked r) ok)

-- An activation in its critical section runs.
pub critical-runs : (pc : ℕ → Pc) (i : ℕ) → Masked pc → in_critical (pc i) ≡ true → runs pc i ≡ true
critical-runs pc i masked inside = elim (Bool-cases (is_top i)) [
  | inl top ↦ rw top
  | inr bottom ↦
      let top : is_top (i - 1) ≡ true = ground (arith, bottom) in
      let at : (i - 1) + 1 ≡ i = ground (arith, bottom) in
      let m = rw (at, inside) at (masked (i - 1) top) in ground (arith, m)
]
