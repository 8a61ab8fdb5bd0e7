-- ===== src/Smp/PercpuParallel/OwnCounter.antt =====
-- Each CPU counts for itself.
use linux_kernel_samples.Base.{
  ℕ, zero, suc, ◌+◌, ◌*◌, ◌%◌, ◌^◌, ◌<◌, ◌≤◌, ◌≡◌, ◌≢◌, refl, arith, ==_refl, ◌==◌, Bool-cases, inl,
  inr, List, [], ◌∷◌, if◌then◌else◌,
}
use linux_kernel_samples.Kernel.{Trace, Kernel, Machine, quiet, Returns, M, pure, ◌>>◌}
use linux_kernel_samples.Kernel.Hoare.{bind, mono}
use linux_kernel_samples.Smp.PercpuParallel.{
  Globals, set_count, set_counts, thread, percpu_parallel_module_init,
}

-- A run of a CPU's thread adds 1 to that CPU's counter, modulo 2^64, and leaves those of the others.
pub thread-own :
    (cpu : ℕ) (k : Kernel) (g : Globals) (t : Trace)
    → Returns
        (λ _ g' t'.
          (g'.gs_count cpu ≡ (g.gs_count cpu + 1) % 2 ^ 64)
          × ((c : ℕ) → c ≢ cpu → g'.gs_count c ≡ g.gs_count c))
        (thread cpu (quiet k) g t)
unfolding thread
thread-own cpu k g t = (rw (==_refl cpu), λ c other. ground arith)

-- Runs of the threads of these CPUs, in this order.
pub run_threads : List ℕ → M Globals (Unit {0})
run_threads [] = pure tt
run_threads (c ∷ order) = do thread c; run_threads order

abbrev pub runs_on : ℕ → List ℕ → ℕ
runs_on cpu [] = 0
runs_on cpu (c ∷ order) = (if cpu == c then 1 else 0) + runs_on cpu order

-- The counter of `cpu` after some more runs of its thread.
abbrev Counted : ℕ → ℕ → Globals → Globals → Type 0
Counted cpu n g g' = g'.gs_count cpu ≡ (g.gs_count cpu + n) % 2 ^ 64

one-Counted :
    (cpu c : ℕ) (g g1 : Globals)
    → g.gs_count cpu < 2 ^ 64
    → g1.gs_count c ≡ (g.gs_count c + 1) % 2 ^ 64
    → ((d : ℕ) → d ≢ c → g1.gs_count d ≡ g.gs_count d)
    → Counted cpu (if cpu == c then 1 else 0) g g1
one-Counted cpu c g g1 small own others = elim (Bool-cases (cpu == c)) [
  | inl same ↦ let e : cpu ≡ c = ground arith in rw same (rw e own)
  | inr other ↦ let ne : cpu ≢ c = ground arith in rw other (omega (arith, others cpu ne, small))
]

-- From counters below 2^64, whatever the order in which the threads of the CPUs run: the counter of each
-- CPU has grown by the number of runs of its own thread, modulo 2^64.
pub run_threads-Counted :
    (order : List ℕ) (cpu : ℕ) (k : Kernel) (g : Globals) (t : Trace)
    → g.gs_count cpu < 2 ^ 64
    → Returns
        (λ _ g' t'. g'.gs_count cpu ≡ (g.gs_count cpu + runs_on cpu order) % 2 ^ 64)
        (run_threads order (quiet k) g t)
unfolding run_threads
run_threads-Counted [] cpu k g t small = omega (arith, small)
run_threads-Counted (c ∷ order) cpu k g t small =
    bind
      (λ _ g1 t1.
        (g1.gs_count c ≡ (g.gs_count c + 1) % 2 ^ 64)
        × ((d : ℕ) → d ≢ c → g1.gs_count d ≡ g.gs_count d))
      (λ _ g' t'. Counted cpu (runs_on cpu (c ∷ order)) g g') (thread c (quiet k) g t) _
      (thread-own c k g t)
      λ _ g1 t1 (own, others).
        let one = one-Counted cpu c g g1 small own others in
        mono (λ _ g' t'. Counted cpu (runs_on cpu order) g1 g')
          (λ _ g' t'. Counted cpu (runs_on cpu (c ∷ order)) g g')
          (run_threads order (quiet k) g1 t1)
          (run_threads-Counted order cpu k g1 t1 (omega (arith, one)))
          λ _ g' t' rest. omega (arith, one, rest)

-- What the loop leaves behind, from `cpu` on.
abbrev pub Started : ℕ → ℕ → Globals → Globals → Type 0
Started left cpu g g' =
    (c : ℕ)
    → ((cpu ≤ c) → (c < cpu + left) → g'.gs_count c ≡ (c + 1) % 2 ^ 32 * 100)
      × (c < cpu → g'.gs_count c ≡ g.gs_count c)

pub set_counts-Started :
    (left cpu : ℕ) (m : Machine Globals) (g : Globals) (t : Trace)
    → Returns (λ _ g' t'. Started left cpu g g') (set_counts left cpu m g t)
unfolding set_counts
set_counts-Started zero cpu m g t = λ c. (λ low high. absurd (omega arith), λ low. refl)
set_counts-Started (suc left) cpu m g t =
    let g1 : Globals = set_count cpu ((cpu + 1) % 2 ^ 32 * 100) g in
    mono (λ _ g' t'. Started left (cpu + 1) g1 g') (λ _ g' t'. Started (suc left) cpu g g')
      (set_counts left (cpu + 1) m g1 t) (set_counts-Started left (cpu + 1) m g1 t)
      λ _ g' t' after c. (λ low high. ground (arith, after c), λ low. ground (arith, after c))

-- Whether or not the load succeeds, until a thread runs, the counter of each possible CPU is 100 times
-- the CPU's number plus 1, that sum modulo 2^32.
pub percpu_parallel_module_init-started :
    (n_cpus : ℕ) (k : Kernel) (g : Globals) (t : Trace)
    → Returns
        (λ ret g' t'. (cpu : ℕ) → cpu < n_cpus → g'.gs_count cpu ≡ (cpu + 1) % 2 ^ 32 * 100)
        (percpu_parallel_module_init n_cpus (quiet k) g t)
unfolding percpu_parallel_module_init
percpu_parallel_module_init-started n_cpus k g t =
    bind (λ _ g' t'. Started n_cpus 0 g g')
      (λ ret g' t'. (cpu : ℕ) → cpu < n_cpus → g'.gs_count cpu ≡ (cpu + 1) % 2 ^ 32 * 100)
      (set_counts n_cpus 0 (quiet k) g t) _ (set_counts-Started n_cpus 0 (quiet k) g t)
      λ _ g' t' all. grind (arith, all)
