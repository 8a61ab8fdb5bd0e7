-- ===== src/Concurrency/Raisers/Raised.antt =====
-- How often the threads raise the irq in all, in every history.
use linux_kernel_samples.Base.{
  ℕ, zero, suc, ◌+◌, ◌*◌, ◌<◌, ◌≤◌, ◌==◌, ◌≡◌, ◌≢◌, refl, ap, Bool-cases, inl, inr, true, false,
  List, [], ◌∷◌, ℤ, pos, is_zero, is_err, arith,
}
use linux_kernel_samples.Kernel.{Call, Event, info, log, call, Trace, Kernel, Returns}
use linux_kernel_samples.Sample.{
  Action, Phase, unloaded, loaded, history, interrupted, later_state, later_trace,
}
use linux_kernel_samples.Sample.Contract.{Always}
use linux_kernel_samples.Sample.Tracking.{AllTrack, run_at-track, later-track}
use linux_kernel_samples.Sample.Tracking.Histories.{Tracked, phase_of, Tracks, history-track}
use linux_kernel_samples.Concurrency.Raisers.{
  raises_per_cpu, Globals, interrupt_competition_bottom_half, interrupt_competition_top_half,
  irq_raiser_should_run, count_raise, raiser_thread, initial, threads, callbacks, err_free_irq,
  err_dispose_mapping, err_remove_sim, err_kill_tasklet, register_raisers,
  interrupt_competition_module_init, interrupt_competition_module_exit,
  interrupt_competition_sample,
}
use linux_kernel_samples.Concurrency.Raisers.Keeps.{AtMost, count_raise-AtMost}
use linux_kernel_samples.Concurrency.Raisers.Lifecycle.{interrupt_competition-obeys}

-- The calls that raise the irq, since the load that began with `tasklet_setup`.
unfoldable pub raises : Trace → ℕ
raises [] = 0
raises (call (Call.tasklet_setup f) v ∷ t) = 0
raises (call (Call.raise_irq q) v ∷ t) = raises t + 1
raises (e ∷ t) = raises t

-- Over the CPUs below a number.
abbrev pub total : ℕ → (ℕ → ℕ) → ℕ
total zero count = 0
total (suc cpu) count = count cpu + total cpu count

total-same : (n : ℕ) (f g : ℕ → ℕ) → ((c : ℕ) → c < n → f c ≡ g c) → total n f ≡ total n g
total-same zero f g same = refl
total-same (suc n) f g same =
    omega (arith, same n (omega arith), total-same n f g (λ c low. same c (omega (arith, low))))

total-count_raise :
    (n cpu : ℕ) (g : Globals)
    → cpu < n
    → g.gs_raise_count cpu < raises_per_cpu
    → total n (count_raise cpu g).gs_raise_count ≡ total n g.gs_raise_count + 1
unfolding count_raise
total-count_raise zero cpu g low due = absurd (omega (arith, low))
total-count_raise (suc n) cpu g low due = elim (Bool-cases (n == cpu)) [
  | inl same ↦
      let e : n ≡ cpu = ground arith in
      let rest =
        total-same n (count_raise cpu g).gs_raise_count g.gs_raise_count (λ c low. ground arith) in
      rw same (omega (arith, rest, due, ap g.gs_raise_count e))
  | inr other ↦
      let ne : n ≢ cpu = ground arith in
      rw other (omega (arith, total-count_raise n cpu g (omega (arith, low, ne)) due))
]

total-AtMost : (n : ℕ) (g : Globals) → AtMost g → total n g.gs_raise_count ≤ n * raises_per_cpu
total-AtMost zero g most = omega arith
total-AtMost (suc n) g most = omega (arith, most n, total-AtMost n g most)

-- The counters count the calls.
abbrev pub Raised : ℕ → Globals → Trace → Type 0
Raised n g t = AtMost g × (total n g.gs_raise_count ≡ raises t)

total-zero : (n : ℕ) → total n initial.gs_raise_count ≡ 0
total-zero zero = refl
total-zero (suc n) = omega (arith, total-zero n)

err_nonzero : (v : ℤ) → is_err v ≡ true → is_zero v ≡ false
err_nonzero v e = ground (arith, e)

abbrev announced : Event
announced =
    log info "every online CPU will raise this one irq %d times at once" (pos raises_per_cpu ∷ [])

module _ (n : ℕ) (k : Kernel) where
  threads-Raised : (m : ℕ) → m ≤ n → AllTrack k (Raised n) (threads m)
  unfolding raiser_thread raises irq_raiser_should_run
  threads-Raised zero room = tt
  threads-Raised (suc cpu) room = (
    (λ g t (most, same). elim (Bool-cases (irq_raiser_should_run cpu g)) [
      | inl due ↦ rw due (
        count_raise-AtMost cpu g due most,
        let low : cpu < n = omega (arith, room) in
            let more : g.gs_raise_count cpu < raises_per_cpu = ground (arith, due) in
            omega (arith, total-count_raise n cpu g low more, same),
      )
      | inr over ↦ rw over (most, same)
    ]),
    threads-Raised cpu (omega (arith, room)),
  )

  callbacks-Raised : AllTrack k (Raised n) (callbacks n)
  unfolding interrupt_competition_top_half interrupt_competition_bottom_half raises
  callbacks-Raised = ((λ g t r. r), ((λ g t r. r), threads-Raised n (omega arith)))

  later-Raised :
      (g : Globals) (t : Trace)
      → Raised n g t
      → Raised n (later_state k (callbacks n) g t) (later_trace k (callbacks n) g t)
  later-Raised g t = later-track k (Raised n) (callbacks n) g t callbacks-Raised

  -- What a load is to leave.
  abbrev Loaded : ℤ → Globals → Trace → Type 0
  Loaded ret g t = Tracked (Raised n) Always (phase_of ret g) t

  register-Loaded :
      (g : Globals) (t : Trace)
      → Raised n g t
      → Returns Loaded (register_raisers (interrupted k (callbacks n)) g t)
  unfolding register_raisers err_free_irq raises
  register-Loaded g t r =
      let c : Call = Call.smpboot_register "irq_raiser/%u" in
      let ret : ℤ = k.answer (announced ∷ t) c in
      elim (Bool-cases (is_zero ret)) [
        | inl ok ↦ rw ok (later-Raised g (call c ret ∷ announced ∷ t) r)
        | inr bad ↦ rw bad (rw bad tt)
      ]

  init-Loaded :
      (t : Trace)
      → Returns Loaded (interrupt_competition_module_init (interrupted k (callbacks n)) initial t)
  unfolding interrupt_competition_module_init err_dispose_mapping err_remove_sim err_kill_tasklet
      raises
  init-Loaded t = grind (arith, err_nonzero, register-Loaded, later-Raised, total-zero)

  exit-Always :
      (g : Globals) (t : Trace)
      → Returns
          (λ _ g' t'. Always t')
          (interrupt_competition_module_exit (interrupted k (callbacks n)) g t)
  unfolding interrupt_competition_module_exit
  exit-Always g t = tt

  tracks : Tracks k (interrupt_competition_sample n) (Raised n) Always
  tracks = record {
    start = tt;
    init_tracks = λ t _. init-Loaded t;
    exit_tracks = λ g t h raised. exit-Always g t;
    callbacks_track = λ i g t. run_at-track k (Raised n) (callbacks n) i g t callbacks-Raised;
    obeys = interrupt_competition-obeys n k;
  }

-- The raises are counted, and bounded.
abbrev pub Bounded : ℕ → Globals → Trace → Type 0
Bounded n g t = Raised n g t × (raises t ≤ n * 10)

Raised-Bounded :
    (n : ℕ) (s : Phase Globals) (t : Trace)
    → Tracked (Raised n) Always s t
    → Tracked (Bounded n) Always s t
Raised-Bounded n unloaded t r = tt
Raised-Bounded n (loaded g) t (most, same) =
    ((most, same), omega (arith, total-AtMost n g most, same))

-- Whatever the kernel answers, on any number of CPUs, in whatever order `interrupt_competition` is
-- loaded, its callbacks run and it is unloaded, and however often registered callbacks interrupt the
-- calls: while the module is loaded, each `gs_raise_count` is ten at most, those of the CPUs add up to
-- the number of calls of the threads that have raised the irq since the load began, and so these are
-- ten for each CPU at most.
pub interrupt_competition-Bounded :
    (n_cpus : ℕ) (k : Kernel) (actions : List Action)
    → Tracked
        (Bounded n_cpus)
        Always
        (history k (interrupt_competition_sample n_cpus) actions).phase
        (history k (interrupt_competition_sample n_cpus) actions).trace
interrupt_competition-Bounded n_cpus k actions = Raised-Bounded n_cpus _ _ (
    history-track k (interrupt_competition_sample n_cpus) (Raised n_cpus) Always (tracks n_cpus k)
      actions)
