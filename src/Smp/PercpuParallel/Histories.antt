-- ===== src/Smp/PercpuParallel/Histories.antt =====
-- The counters in every history, however often the threads interrupt a load or an unload.
use linux_kernel_samples.Base.{
  ℕ, zero, suc, ◌+◌, ◌*◌, ◌%◌, ◌^◌, ◌<◌, ◌==◌, ◌≡◌, ap, Bool-cases, inl, inr, List, [], ◌∷◌, ℤ, pos,
  arith, if◌then◌else◌, is_zero,
}
use linux_kernel_samples.Kernel.{process, Call, call, log, Trace, Kernel, Returns}
use linux_kernel_samples.Kernel.Contract.{threads_of}
use linux_kernel_samples.Kernel.Hoare.{bind}
use linux_kernel_samples.Sample.{Action, history, interrupted, run, later_state, later_trace}
use linux_kernel_samples.Sample.Tracking.{After, AllTrack, run_at-track, later-track}
use linux_kernel_samples.Sample.Tracking.Histories.{Tracked, phase_of, Tracks, history-track}
use linux_kernel_samples.Smp.PercpuParallel.{
  Globals, set_counts, thread, threads, percpu_parallel_module_init, percpu_parallel_module_exit,
  initial, percpu_parallel_sample,
}
use linux_kernel_samples.Sample.Contract.{Always}
use linux_kernel_samples.Smp.PercpuParallel.OwnCounter.{Started, set_counts-Started}
use linux_kernel_samples.Smp.PercpuParallel.Lifecycle.{percpu_parallel-obeys}

-- The lines `CPU#%u=%ld` of this CPU, since the threads were registered.
unfoldable pub counts_logged : ℕ → Trace → ℕ
counts_logged cpu [] = 0
counts_logged cpu (call (Call.smpboot_register name) v ∷ t) = 0
counts_logged cpu (log l m (pos n ∷ val ∷ []) ∷ t) =
    let before = counts_logged cpu t in if cpu == n then before + 1 else before
counts_logged cpu (e ∷ t) = counts_logged cpu t

-- Where the loop of the load lets the counter of a CPU start.
abbrev pub start_count : ℕ → ℕ
start_count cpu = (cpu + 1) % 2 ^ 32 * 100

-- Of the possible CPUs, `n_cpus` of them.
abbrev pub Counted : ℕ → Globals → Trace → Type 0
Counted n_cpus g t =
    (cpu : ℕ) → cpu < n_cpus → g.gs_count cpu ≡ (start_count cpu + counts_logged cpu t) % 2 ^ 64

thread-Counted :
    (n_cpus c : ℕ) (k : Kernel) (g : Globals) (t : Trace)
    → Counted n_cpus g t
    → After k
        (Counted n_cpus)
        (run k (record { context = process; source = threads_of; body = thread c }) g t)
unfolding thread counts_logged
thread-Counted n_cpus c k g t counted cpu low = elim (Bool-cases (cpu == c)) [
  | inl same ↦
      let e : cpu ≡ c = ground arith in rw same (omega (arith, ap g.gs_count e, counted cpu low))
  | inr other ↦ rw other (counted cpu low)
]

abbrev register : Call
register = Call.smpboot_register "percpu_parallel/%u"

module _ (n_cpus : ℕ) (k : Kernel) where
  threads-Counted : (m : ℕ) → AllTrack k (Counted n_cpus) (threads m)
  threads-Counted zero = tt
  threads-Counted (suc c) = (thread-Counted n_cpus c k, threads-Counted c)

  later-Counted :
      (g : Globals) (t : Trace)
      → Counted n_cpus g t
      → Counted n_cpus (later_state k (threads n_cpus) g t) (later_trace k (threads n_cpus) g t)
  later-Counted g t = later-track k (Counted n_cpus) (threads n_cpus) g t (threads-Counted n_cpus)

  fresh :
      (g g' : Globals) (t : Trace) (v : ℤ)
      → Started n_cpus 0 g g'
      → Counted n_cpus g' (call register v ∷ t)
  unfolding counts_logged
  fresh g g' t v all cpu low = omega (arith, (all cpu).0 (omega arith) (omega (arith, low)))

  init-Counted :
      (g : Globals) (t : Trace)
      → Returns
          (λ ret g' t'. Tracked (Counted n_cpus) Always (phase_of ret g') t')
          (percpu_parallel_module_init n_cpus (interrupted k (threads n_cpus)) g t)
  unfolding percpu_parallel_module_init counts_logged
  init-Counted g t =
      bind (λ _ g' t'. Started n_cpus 0 g g')
        (λ ret g' t'. Tracked (Counted n_cpus) Always (phase_of ret g') t')
        (set_counts n_cpus 0 (interrupted k (threads n_cpus)) g t) _
        (set_counts-Started n_cpus 0 (interrupted k (threads n_cpus)) g t)
        λ _ g' t' all.
          let ret : ℤ = k.answer t' register in
          let registered = later-Counted g' (call register ret ∷ t') (fresh g g' t' ret all) in
          elim (Bool-cases (is_zero ret)) [
            | inl ok ↦ rw ok (rw ok registered)
            | inr failed ↦ rw failed (rw failed tt)
          ]

  exit-Always :
      (g : Globals) (t : Trace)
      → Returns
          (λ _ g' t'. Always t')
          (percpu_parallel_module_exit (interrupted k (threads n_cpus)) g t)
  unfolding percpu_parallel_module_exit
  exit-Always g t = tt

  tracks : Tracks k (percpu_parallel_sample n_cpus) (Counted n_cpus) Always
  tracks = record {
    start = tt;
    init_tracks = λ t _. init-Counted initial t;
    exit_tracks = λ g t h counted. exit-Always g t;
    callbacks_track =
        λ i g t. run_at-track k (Counted n_cpus) (threads n_cpus) i g t (threads-Counted n_cpus);
    obeys = percpu_parallel-obeys n_cpus k;
  }

-- Whatever the kernel answers, on any number of CPUs, in whatever order `percpu_parallel` is loaded, its
-- threads run and it is unloaded, and however often they interrupt the calls of a load and of an unload:
-- while the module is loaded, the counter of each possible CPU is 100 times the CPU's number plus 1 (that
-- sum modulo 2^32), plus the number of lines `CPU#%u=%ld` that its own thread has logged since the
-- threads were registered, modulo 2^64.
pub percpu_parallel-Counted :
    (n_cpus : ℕ) (k : Kernel) (actions : List Action)
    → Tracked
        (Counted n_cpus)
        Always
        (history k (percpu_parallel_sample n_cpus) actions).phase
        (history k (percpu_parallel_sample n_cpus) actions).trace
percpu_parallel-Counted n_cpus k =
    history-track k (percpu_parallel_sample n_cpus) (Counted n_cpus) Always (tracks n_cpus k)
