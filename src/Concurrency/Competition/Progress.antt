-- ===== src/Concurrency/Competition/Progress.antt =====
-- No deadlock on CPUs that run one half at a time: from every reachable state, each activation can come
-- to its end.
use native.Mathlib.Decide.{ℕ_discrete}
use linux_kernel_samples.Base.{
  ℕ, zero, suc, ◌-◌, ◌==◌, ◌≡◌, ◌≢◌, refl, ◌∙◌, true, false, Bool-cases, Option-cases, inl, inr,
  arith,
}
use linux_kernel_samples.Concurrency.Competition.{
  SpinLock, Tasklet, schedule, start_bottom, bottom_entered, Pc, idle, update, System, Step, access,
  outside, take, give, Reach, here, next,
}
use linux_kernel_samples.Concurrency.Competition.Invariant.{
  in_critical, Access-in, Outside-in, Locking-in, Unlocking-in,
}
use linux_kernel_samples.Concurrency.Competition.Cpus.{
  is_top, is_idle, runs, allows, CpuStep, on_cpu, CpuReach, later, CpuReach-Reach, CpuReach-Masked,
  critical-runs,
}
use linux_kernel_samples.Concurrency.Competition.Counting.{Inv, Reach-Inv, split}
use linux_kernel_samples.Concurrency.Competition.Moves.{
  rank, is_entered, by_access, by_unlock, by_print, by_schedule, rank-Move, rank-idle, locked_pc,
  locking, critical_rank, update-at, update-other,
}

not-idle : (p : Pc) (n : ℕ) → rank p ≡ suc n → is_idle p ≡ false
not-idle idle n e = absurd (omega (arith, e))
not-idle p n e = refl

entered-busy : (p : Pc) → is_entered p ≡ true → is_idle p ≡ false
entered-busy idle e = absurd cc
entered-busy p e = refl

critical-busy : (p : Pc) → in_critical p ≡ true → is_idle p ≡ false
critical-busy idle e = absurd cc
critical-busy p e = refl

-- If only `j`, which was in its critical section, has moved, `i` still runs.
kept_running :
    (pc pc' : ℕ → Pc) (i j : ℕ)
    → runs pc i ≡ true
    → in_critical (pc j) ≡ true
    → ((m : ℕ) → m ≢ j → pc' m ≡ pc m)
    → runs pc' i ≡ true
kept_running pc pc' i j run inside others = elim (Bool-cases (is_top i)) [
  | inl top ↦ rw top
  | inr bottom ↦
      let idle_there : is_idle (pc (i - 1)) ≡ true = rw bottom at run in
      let apart : i - 1 ≢ j =
        λ same. let free = rw same at idle_there in let busy = critical-busy (pc j) inside in cc in
      rw (bottom, others (i - 1) apart, idle_there)
]

-- What interrupts an activation runs itself.
interrupter-runs : (pc : ℕ → Pc) (i : ℕ) → runs pc i ≡ false → runs pc (i - 1) ≡ true
interrupter-runs pc i halted = let top : is_top (i - 1) ≡ true = ground (arith, halted) in rw top

resumes : (pc : ℕ → Pc) (i : ℕ) → pc (i - 1) ≡ idle → runs pc i ≡ true
resumes pc i ended = rw ended (ground arith)

module _ (spin : SpinLock) (soft : Tasklet) where
  pub data Steps : System spin soft → System spin soft → Type 0 where
    stay : {s : System spin soft} → Steps s s
    step : {s t u : System spin soft} → CpuStep spin soft s t → Steps t u → Steps s u

  Steps-CpuReach :
      {s t : System spin soft} → CpuReach spin soft s → Steps s t → CpuReach spin soft t
  Steps-CpuReach r stay = r
  Steps-CpuReach r (step one more) = Steps-CpuReach (later r one) more

  Steps-trans : {s t u : System spin soft} → Steps s t → Steps t u → Steps s u
  Steps-trans stay b = b
  Steps-trans (step one more) b = step one (Steps-trans more b)

  -- From `s`, activation `i` comes to its end, and the others stay where they are.
  record Ended (s : System spin soft) (i : ℕ) : Type 0 where
    final : System spin soft
    steps : Steps s final
    ended : final.pc i ≡ idle
    others : (j : ℕ) → j ≢ i → final.pc j ≡ s.pc j

  after_step :
      {s t : System spin soft} (i : ℕ) (p : Pc)
      → Step spin soft s t
      → t.pc ≡ update s.pc i p
      → allows s.pc i p ≡ true
      → Ended t i
      → Ended s i
  after_step {s} i p one e ok rest = record {
    final = rest.final;
    steps = step (on_cpu i p one e ok) rest.steps;
    ended = rest.ended;
    others = λ j other. rest.others j other ∙ rw e (update-other s.pc i p j other);
  }

  -- A step of an activation that runs, which does not start it.
  moves :
      (pc : ℕ → Pc) (i n : ℕ) (p : Pc)
      → runs pc i ≡ true
      → rank (pc i) ≡ suc n
      → is_entered p ≡ false
      → allows pc i p ≡ true
  moves pc i n p run e past = rw (past, run, not-idle (pc i) n e)

  -- And it still runs afterwards.
  still : (pc : ℕ → Pc) (i : ℕ) (p : Pc) → runs pc i ≡ true → runs (update pc i p) i ≡ true
  still pc i p run = elim (Bool-cases (is_top i)) [
    | inl top ↦ rw top
    | inr bottom ↦
        let apart : (i - 1 == i) ≡ false = ground (arith, bottom) in
        rw (bottom, apart) (rw bottom at run)
  ]

  -- An activation that does not wait for the lock needs no other one.
  alone :
      (n : ℕ) (s : System spin soft) (i : ℕ)
      → rank (s.pc i) ≡ n
      → is_entered (s.pc i) ≡ false
      → runs s.pc i ≡ true
      → Ended s i
  alone zero s i e free run = record {
    final = s;
    steps = stay;
    ended = rank-idle (s.pc i) e;
    others = λ j other. refl;
  }
  alone (suc n) s i e free run =
      elim (rank-Move s.counters (s.pc i) free (λ z. omega (arith, e, z))) [
        | by_access {m'} {p} a less stays ↦
            after_step i p (access i a) refl (moves s.pc i n p run e stays) (
              alone n (record s { counters = m'; pc = update s.pc i p }) i
                (rw (update-at s.pc i p) (omega (arith, e, less))) (rw (update-at s.pc i p) stays)
                (still s.pc i p run))
        | by_unlock {p} u less stays ↦
            after_step i p (give i u) refl (moves s.pc i n p run e stays) (
              alone n
                (record s {
                  gs_counter_lock = spin.unlock s.gs_counter_lock i;
                  pc = update s.pc i p;
                })
                i (rw (update-at s.pc i p) (omega (arith, e, less))) (rw (update-at s.pc i p) stays)
                (still s.pc i p run))
        | by_print {p} o less stays ↦
            after_step i p (outside i o) refl (moves s.pc i n p run e stays) (
              alone n (record s { pc = update s.pc i p }) i
                (rw (update-at s.pc i p) (omega (arith, e, less))) (rw (update-at s.pc i p) stays)
                (still s.pc i p run))
        | by_schedule at ↦
            let last : rank (s.pc i) ≡ 1 = rw at in
            after_step i idle (schedule i at) refl (moves s.pc i n idle run e refl) (
              alone n
                (record s {
                  gs_bottom_half = soft.tasklet_schedule s.gs_bottom_half;
                  pc = update s.pc i idle;
                })
                i (rw (update-at s.pc i idle) (omega (arith, e, last))) (rw (update-at s.pc i idle))
                (still s.pc i idle run))
      ]

  -- Only an activation in its critical section holds the lock.
  abbrev HeldInside : System spin soft → Type 0
  HeldInside s = (j : ℕ) → spin.holds s.gs_counter_lock j ≡ true → in_critical (s.pc j) ≡ true

  Step-HeldInside :
      {s t : System spin soft} → Step spin soft s t → Inv spin soft s → HeldInside s → HeldInside t
  Step-HeldInside {s} (access i {m} {p} a) inv inside =
      split (λ j p'. spin.holds s.gs_counter_lock j ≡ true → in_critical p' ≡ true) s.pc i p
        (λ _. (Access-in a).1) (λ j other. inside j)
  Step-HeldInside {s} (outside i {p} o) inv inside =
      split (λ j p'. spin.holds s.gs_counter_lock j ≡ true → in_critical p' ≡ true) s.pc i p
        (λ h. absurd (let yes_in = inside i h in let no = Outside-in o in cc)) (λ j other. inside j)
  Step-HeldInside {s} (take i {l} {p} k got) inv inside =
      split (λ j p'. spin.holds l j ≡ true → in_critical p' ≡ true) s.pc i p (λ _. Locking-in k)
        (λ j other h. absurd (
          let same = spin.exclusive l j i h (spin.lock-holds s.gs_counter_lock i got) in
          ground arith))
  Step-HeldInside {s} (give i {p} u) inv inside = λ j h.
      absurd
        (let no = spin.unlock-frees s.gs_counter_lock i (inv.holder i (Unlocking-in u)) j in cc)
  Step-HeldInside {s} (schedule i e) inv inside =
      split (λ j p'. spin.holds s.gs_counter_lock j ≡ true → in_critical p' ≡ true) s.pc i idle
        (λ h. absurd (let yes_in = rw e at (inside i h) in cc)) (λ j other. inside j)
  Step-HeldInside {s} (start_bottom i e got) inv inside =
      split (λ j p'. spin.holds s.gs_counter_lock j ≡ true → in_critical p' ≡ true) s.pc i
        bottom_entered (λ h. absurd (let yes_in = rw e at (inside i h) in cc)) (λ j other. inside j)

  Reach-HeldInside : {s : System spin soft} → Reach spin soft s → HeldInside s
  Reach-HeldInside here = λ j h. absurd (let no = spin.holds-unlocked j in cc)
  Reach-HeldInside (next r st) = Step-HeldInside st (Reach-Inv spin soft r) (Reach-HeldInside r)

  takes :
      (pc : ℕ → Pc) (i : ℕ) (p : Pc)
      → is_entered (pc i) ≡ true
      → is_entered p ≡ false
      → runs pc i ≡ true
      → allows pc i p ≡ true
  takes pc i p waits past run = rw (past, run, entered-busy (pc i) waits)

  -- Once the lock is free, an activation that waits for it can take it and come to its end.
  when_free :
      (s : System spin soft) (i : ℕ)
      → ((j : ℕ) → spin.holds s.gs_counter_lock j ≡ false)
      → is_entered (s.pc i) ≡ true
      → runs s.pc i ≡ true
      → Ended s i
  when_free s i free waits run = elim (Option-cases (spin.lock s.gs_counter_lock i)) [
    | inl fails ↦
        absurd (let (j, h) = spin.lock-fails s.gs_counter_lock i fails in let no = free j in cc)
    | inr (l, got) ↦
        let (k, past) = locking (s.pc i) waits in
        let p = locked_pc (s.pc i) in
        after_step i p (take i k got) refl (takes s.pc i p waits past run) (
          alone (rank p) (record s { gs_counter_lock = l; pc = update s.pc i p }) i
            (rw (update-at s.pc i p)) (rw (update-at s.pc i p) past) (still s.pc i p run))
  ]

  -- Once the holder has come to its end, nobody holds the lock.
  freed :
      {s : System spin soft} (r : CpuReach spin soft s) (j : ℕ)
      → in_critical (s.pc j) ≡ true
      → (e : Ended s j) → (i : ℕ) → spin.holds e.final.gs_counter_lock i ≡ false
  freed {s} r j inside e i = elim (Bool-cases (spin.holds e.final.gs_counter_lock i)) [
    | inr none_holds ↦ none_holds
    | inl h ↦
        let within = Reach-HeldInside (CpuReach-Reach spin soft (Steps-CpuReach r e.steps)) i h in
        elim (ℕ_discrete i j) [
          | yes same ↦ absurd (let done = e.ended in let at = rw same at within in cc)
          | no other ↦
              let before = rw (e.others i other) at within in
              let inv = Reach-Inv spin soft (CpuReach-Reach spin soft r) in
              absurd (
                other (
                  spin.exclusive s.gs_counter_lock i j (inv.holder i before) (inv.holder j inside)))
        ]
  ]

  abbrev pub CanEnd : System spin soft → ℕ → Type 0
  CanEnd s i = (t : System spin soft) × Steps s t × (t.pc i ≡ idle)

  ended-CanEnd : {s : System spin soft} {i : ℕ} → Ended s i → CanEnd s i
  ended-CanEnd e = (e.final, e.steps, e.ended)

  -- Where another activation holds the lock, that one comes to its end first.
  after_holder :
      {s : System spin soft} (r : CpuReach spin soft s) (i j : ℕ)
      → runs s.pc i ≡ true
      → is_entered (s.pc i) ≡ true
      → in_critical (s.pc j) ≡ true
      → CanEnd s i
  after_holder {s} r i j run waits inside =
      let first =
        alone (rank (s.pc j)) s j refl (critical_rank (s.pc j) inside)
          (critical-runs s.pc j (CpuReach-Masked spin soft r) inside) in
      let other : i ≢ j =
        λ same. let w = rw same at waits in let c = critical_rank (s.pc j) inside in cc in
      let e =
        when_free first.final i (freed r j inside first) (rw (first.others i other) waits)
          (kept_running s.pc first.final.pc i j run inside first.others) in
      (e.final, Steps-trans first.steps e.steps, e.ended)

  -- An activation that runs can come to its end.
  running-CanEnd :
      {s : System spin soft} → CpuReach spin soft s → (i : ℕ) → runs s.pc i ≡ true → CanEnd s i
  running-CanEnd {s} r i run = elim (Bool-cases (is_entered (s.pc i))) [
    | inr past ↦ ended-CanEnd (alone (rank (s.pc i)) s i refl past run)
    | inl waits ↦ elim (Option-cases (spin.lock s.gs_counter_lock i)) [
      | inr (l, got) ↦
          ended-CanEnd (when_free s i (spin.lock-waits s.gs_counter_lock i got) waits run)
      | inl fails ↦
          let (j, h) = spin.lock-fails s.gs_counter_lock i fails in
          after_holder r i j run waits (Reach-HeldInside (CpuReach-Reach spin soft r) j h)
    ]
  ]

  -- With a lock that excludes, that waits only while somebody holds it, and that is taken with the
  -- interrupts of the CPU off, and where a bottom half stands still while the top half of its CPU runs:
  -- from every reachable state, each activation can come to its end, so that the halves do not deadlock.
  pub each-CanEnd : {s : System spin soft} → CpuReach spin soft s → (i : ℕ) → CanEnd s i
  each-CanEnd {s} r i = elim (Bool-cases (runs s.pc i)) [
    | inl run ↦ running-CanEnd r i run
    | inr halted ↦
        let top : runs s.pc (i - 1) ≡ true = interrupter-runs s.pc i halted in
        let (t, steps, ended) = running-CanEnd r (i - 1) top in
        let (u, more, done) = running-CanEnd (Steps-CpuReach r steps) i (resumes t.pc i ended) in
        (u, Steps-trans steps more, done)
  ]
