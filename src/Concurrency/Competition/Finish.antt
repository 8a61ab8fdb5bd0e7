-- ===== src/Concurrency/Competition/Finish.antt =====
-- A critical section that is open, run to its end.
use linux_kernel_samples.Base.{ℕ, ◌+◌, ◌%◌, ◌^◌, ◌≡◌, refl, ◌∷◌}
use linux_kernel_samples.Concurrency.Competition.{
  Counters, Pc, top_run_load, top_run_store, top_n, top_shared_load, top_shared_store, top_val,
  top_seq, bottom_seq, bottom_shared_load, bottom_shared_store, bottom_val, Access, load_run,
}

-- What is left of a critical section, run to its end.
abbrev after_seq : ℕ → Counters → Counters
after_seq n m = record m { gs_pending_seq = n }

abbrev after_val : ℕ → Counters → Counters
after_val n m = after_seq n (record m { vals = m.gs_shared_count ∷ m.vals })

abbrev after_store : ℕ → ℕ → Counters → Counters
after_store n count m = after_val n (record m { gs_shared_count = (count + 1) % 2 ^ 64 })

abbrev after_n : ℕ → Counters → Counters
after_n n m = after_store n m.gs_shared_count (record m { seqs = n ∷ m.seqs })

abbrev after_run : ℕ → Counters → Counters
after_run run m =
    after_n ((run + 1) % 2 ^ 32) (record m { gs_hardirq_run_count = (run + 1) % 2 ^ 32 })

abbrev after_bottom_val : Counters → Counters
after_bottom_val m = record m { vals = m.gs_shared_count ∷ m.vals }

abbrev after_bottom_store : ℕ → Counters → Counters
after_bottom_store count m = after_bottom_val (record m { gs_shared_count = (count + 1) % 2 ^ 64 })

abbrev after_pick : Counters → Counters
after_pick m =
    after_bottom_store m.gs_shared_count (record m { picks = m.gs_pending_seq ∷ m.picks })

abbrev pub finish : Pc → Counters → Counters
finish top_run_load m = after_run m.gs_hardirq_run_count m
finish (top_run_store run) m = after_run run m
finish top_n m = after_n m.gs_hardirq_run_count m
finish (top_shared_load n) m = after_store n m.gs_shared_count m
finish (top_shared_store n count) m = after_store n count m
finish (top_val n) m = after_val n m
finish (top_seq n val) m = after_seq n m
finish bottom_seq m = after_pick m
finish (bottom_shared_load seq) m = after_bottom_store m.gs_shared_count m
finish (bottom_shared_store seq count) m = after_bottom_store count m
finish (bottom_val seq) m = after_bottom_val m
finish _ m = m

-- An access does a part of what is left.
pub Access-finish : {m m' : Counters} {p p' : Pc} → Access m p m' p' → finish p' m' ≡ finish p m
Access-finish load_run = refl
Access-finish _ = refl
