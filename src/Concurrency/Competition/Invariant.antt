-- ===== src/Concurrency/Competition/Invariant.antt =====
-- The invariant of the two halves, and that every step keeps it.
use linux_kernel_samples.Base.{ℕ, suc, ◌%◌, ◌^◌, ◌≡◌, refl, Bool, true, false, List, [], ◌∷◌, arith}
use linux_kernel_samples.Concurrency.Competition.{
  Counters, Pc, idle, top_entered, top_run_load, top_run_store, top_n, top_shared_load,
  top_shared_store, top_val, top_seq, top_unlock, top_print, top_schedule, bottom_entered,
  bottom_seq, bottom_shared_load, bottom_shared_store, bottom_val, bottom_unlock, bottom_print,
  Access, Outside, start_top, print_top, print_bottom, Locking, lock_top, lock_bottom, Unlocking,
  unlock_top, unlock_bottom, load_run, read_n, read_val, read_val_bottom,
}

abbrev pub length : List ℕ → ℕ
length [] = 0
length (x ∷ xs) = suc (length xs)

-- The values 1, 2, 3, … modulo `w`, the newest first.
abbrev pub Counts : ℕ → List ℕ → Type 0
Counts w [] = Unit
Counts w (x ∷ xs) = (x ≡ suc (length xs) % w) × Counts w xs

-- Between `spin_lock_irqsave` and `spin_unlock_irqrestore`.
abbrev pub in_critical : Pc → Bool
in_critical idle = false
in_critical top_entered = false
in_critical (top_print n val) = false
in_critical top_schedule = false
in_critical bottom_entered = false
in_critical (bottom_print seq val) = false
in_critical _ = true

-- The counters while nobody holds the lock.
pub record AtRest (m : Counters) : Type 0 where
  pub shared : m.gs_shared_count ≡ length m.vals % 2 ^ 64
  pub runs : m.gs_hardirq_run_count ≡ length m.seqs % 2 ^ 32
  pub pending : m.gs_pending_seq ≡ m.gs_hardirq_run_count

-- What the holder of the lock knows of the counters.
abbrev pub Fact : Counters → Pc → Type 0
Fact m top_run_load = AtRest m
Fact m (top_run_store run) = AtRest m × (run ≡ m.gs_hardirq_run_count)
Fact m top_n =
    (m.gs_shared_count ≡ length m.vals % 2 ^ 64)
    × (m.gs_hardirq_run_count ≡ suc (length m.seqs) % 2 ^ 32)
Fact m (top_shared_load n) =
    (m.gs_shared_count ≡ length m.vals % 2 ^ 64)
    × (m.gs_hardirq_run_count ≡ length m.seqs % 2 ^ 32)
    × (n ≡ m.gs_hardirq_run_count)
Fact m (top_shared_store n count) =
    (count ≡ length m.vals % 2 ^ 64)
    × (m.gs_hardirq_run_count ≡ length m.seqs % 2 ^ 32)
    × (n ≡ m.gs_hardirq_run_count)
Fact m (top_val n) =
    (m.gs_shared_count ≡ suc (length m.vals) % 2 ^ 64)
    × (m.gs_hardirq_run_count ≡ length m.seqs % 2 ^ 32)
    × (n ≡ m.gs_hardirq_run_count)
Fact m (top_seq n val) =
    (m.gs_shared_count ≡ length m.vals % 2 ^ 64)
    × (m.gs_hardirq_run_count ≡ length m.seqs % 2 ^ 32)
    × (n ≡ m.gs_hardirq_run_count)
Fact m (top_unlock n val) = AtRest m
Fact m bottom_seq = AtRest m
Fact m (bottom_shared_load seq) = AtRest m
Fact m (bottom_shared_store seq count) = AtRest m × (count ≡ m.gs_shared_count)
Fact m (bottom_val seq) =
    (m.gs_shared_count ≡ suc (length m.vals) % 2 ^ 64)
    × (m.gs_hardirq_run_count ≡ length m.seqs % 2 ^ 32)
    × (m.gs_pending_seq ≡ m.gs_hardirq_run_count)
Fact m (bottom_unlock seq val) = AtRest m
Fact m _ = Unit

pub Fact-outside : (m : Counters) (p : Pc) → in_critical p ≡ false → Fact m p
Fact-outside m idle e = tt
Fact-outside m top_entered e = tt
Fact-outside m (top_print n val) e = tt
Fact-outside m top_schedule e = tt
Fact-outside m bottom_entered e = tt
Fact-outside m (bottom_print seq val) e = tt
Fact-outside m _ e = absurd (cc)

pub Access-in :
    {m m' : Counters} {p p' : Pc}
    → Access m p m' p'
    → (in_critical p ≡ true) × (in_critical p' ≡ true)
Access-in load_run = (refl, refl)
Access-in _ = (refl, refl)

pub Outside-out : {q p : Pc} → Outside q p → in_critical p ≡ false
Outside-out start_top = refl
Outside-out print_top = refl
Outside-out print_bottom = refl

pub Outside-in : {q p : Pc} → Outside q p → in_critical q ≡ false
Outside-in start_top = refl
Outside-in print_top = refl
Outside-in print_bottom = refl

pub Locking-in : {q p : Pc} → Locking q p → in_critical p ≡ true
Locking-in lock_top = refl
Locking-in lock_bottom = refl

pub Unlocking-in : {q p : Pc} → Unlocking q p → in_critical q ≡ true
Unlocking-in unlock_top = refl
Unlocking-in unlock_bottom = refl

pub Unlocking-out : {q p : Pc} → Unlocking q p → in_critical p ≡ false
Unlocking-out unlock_top = refl
Unlocking-out unlock_bottom = refl

pub Access-Fact : {m m' : Counters} {p p' : Pc} → Access m p m' p' → Fact m p → Fact m' p'
Access-Fact load_run f = ground arith
Access-Fact _ f = ground arith

-- Each value that is read is the next one.
pub Access-Counts :
    {m m' : Counters} {p p' : Pc}
    → Access m p m' p'
    → Fact m p
    → Counts (2 ^ 64) m.vals
    → Counts (2 ^ 32) m.seqs
    → Counts (2 ^ 64) m'.vals × Counts (2 ^ 32) m'.seqs
Access-Counts load_run f v n = (v, n)
Access-Counts read_n f v n = (v, (f.1, n))
Access-Counts read_val f v n = ((f.0, v), n)
Access-Counts read_val_bottom f v n = ((f.0, v), n)
Access-Counts _ f v n = (v, n)
