-- ===== src/Concurrency/Competition/Counting.antt =====
-- In every interleaving the counters stay free of gaps.
use linux_kernel_samples.Base.{
  ℕ, ◌^◌, ◌≡◌, refl, true, false, Bool-cases, inl, inr, some, arith, ◌==◌,
}
use linux_kernel_samples.Concurrency.Competition.{
  SpinLock, Tasklet, schedule, start_bottom, idle, bottom_entered, Counters, Pc, Access, Locking,
  lock_top, lock_bottom, Unlocking, unlock_top, unlock_bottom, update, System, Step, access,
  outside, take, give, initial, Reach, here, next,
}
use linux_kernel_samples.Concurrency.Competition.Invariant.{
  Counts, in_critical, AtRest, Fact, Fact-outside, Outside-out, Unlocking-in, Unlocking-out,
  Access-in, Access-Fact, Access-Counts,
}

-- A property of the moved activation, and of the others.
pub split :
    (P : ℕ → Pc → Type 0) (f : ℕ → Pc) (i : ℕ) (p : Pc)
    → P i p
    → ((j : ℕ) → (j == i) ≡ false → P j (f j))
    → (j : ℕ) → P j (update f i p j)
split P f i p at others j = elim (Bool-cases (j == i)) [
  | inl same ↦ let e : j ≡ i = ground arith in rw (same, e) at
  | inr other ↦ rw other (others j other)
]

module _ (spin : SpinLock) (soft : Tasklet) where
  pub record Inv (s : System spin soft) : Type 0 where
    pub holder : (i : ℕ) → in_critical (s.pc i) ≡ true → spin.holds s.gs_counter_lock i ≡ true
    pub facts : (i : ℕ) → Fact s.counters (s.pc i)
    pub rest : ((i : ℕ) → spin.holds s.gs_counter_lock i ≡ false) → AtRest s.counters
    pub counted_vals : Counts (2 ^ 64) s.counters.vals
    pub counted_seqs : Counts (2 ^ 32) s.counters.seqs

  Inv-initial : Inv (initial spin soft)
  Inv-initial = record {
    holder = λ i e. absurd (cc);
    facts = λ i. tt;
    rest = λ _. omega arith;
    counted_vals = tt;
    counted_seqs = tt;
  }

  module _ {s : System spin soft} (inv : Inv s) where
    Access-Inv :
        (i : ℕ) (q : Pc) {m : Counters} {p : Pc}
        → q ≡ s.pc i
        → Access s.counters q m p
        → Inv (record s { counters = m; pc = update s.pc i p })
    Access-Inv i q {m} {p} e a =
        let mine : spin.holds s.gs_counter_lock i ≡ true =
          inv.holder i (rw (← e) (Access-in a).0) in
        let known : Fact s.counters q = rw e (inv.facts i) in
        let counted = Access-Counts a known inv.counted_vals inv.counted_seqs in
        record {
          holder =
              split (λ j p'. in_critical p' ≡ true → spin.holds s.gs_counter_lock j ≡ true) s.pc i p
                (λ _. mine) (λ j other c. inv.holder j c);
          facts =
              split (λ j p'. Fact m p') s.pc i p (Access-Fact a known)
                λ j other. elim (Bool-cases (in_critical (s.pc j))) [
                  | inl inside ↦
                      let same = spin.exclusive s.gs_counter_lock j i (inv.holder j inside) mine in
                      absurd (ground arith)
                  | inr out ↦ Fact-outside m (s.pc j) out
                ];
          rest = λ free. absurd (let no = free i in cc);
          counted_vals = counted.0;
          counted_seqs = counted.1;
        }

    outside-Inv :
        (i : ℕ) (p : Pc) (b : soft.State)
        → in_critical p ≡ false
        → Inv (record s { gs_bottom_half = b; pc = update s.pc i p })
    outside-Inv i p b out = record {
      holder =
          split (λ j p'. in_critical p' ≡ true → spin.holds s.gs_counter_lock j ≡ true) s.pc i p
            (λ c. absurd cc) (λ j other c. inv.holder j c);
      facts =
          split (λ j p'. Fact s.counters p') s.pc i p (Fact-outside s.counters p out)
            (λ j other. inv.facts j);
      rest = inv.rest;
      counted_vals = inv.counted_vals;
      counted_seqs = inv.counted_seqs;
    }

    take-Inv :
        (i : ℕ) (q : Pc) {l : spin.State} {p : Pc}
        → q ≡ s.pc i
        → Locking q p
        → spin.lock s.gs_counter_lock i ≡ some l
        → Inv (record s { gs_counter_lock = l; pc = update s.pc i p })
    take-Inv i q {l} {p} e k got =
        let free = spin.lock-waits s.gs_counter_lock i got in
        record {
          holder =
              split (λ j p'. in_critical p' ≡ true → spin.holds l j ≡ true) s.pc i p
                (λ _. spin.lock-holds s.gs_counter_lock i got)
                (λ j other c. absurd (let held = inv.holder j c in let no = free j in cc));
          facts =
              split (λ j p'. Fact s.counters p') s.pc i p (entered k (inv.rest free))
                (λ j other. inv.facts j);
          rest = λ none_holds. inv.rest free;
          counted_vals = inv.counted_vals;
          counted_seqs = inv.counted_seqs;
        }
      where
        entered : {q p : Pc} → Locking q p → AtRest s.counters → Fact s.counters p
        entered lock_top r = r
        entered lock_bottom r = r

    give-Inv :
        (i : ℕ) (q : Pc) {p : Pc}
        → q ≡ s.pc i
        → Unlocking q p
        → Inv (record s { gs_counter_lock = spin.unlock s.gs_counter_lock i; pc = update s.pc i p })
    give-Inv i q {p} e u =
        let mine : spin.holds s.gs_counter_lock i ≡ true =
          inv.holder i (rw (← e) (Unlocking-in u)) in
        record {
          holder =
              split
                (λ j p'.
                  in_critical p' ≡ true → spin.holds (spin.unlock s.gs_counter_lock i) j ≡ true)
                s.pc i p (λ c. absurd (let n = Unlocking-out u in cc))
                (λ j other c. absurd (
                  let same = spin.exclusive s.gs_counter_lock j i (inv.holder j c) mine in
                  ground arith));
          facts =
              split (λ j p'. Fact s.counters p') s.pc i p
                (Fact-outside s.counters p (Unlocking-out u)) (λ j other. inv.facts j);
          rest = λ _. rested u (rw e (inv.facts i));
          counted_vals = inv.counted_vals;
          counted_seqs = inv.counted_seqs;
        }
      where
        rested : {q p : Pc} → Unlocking q p → Fact s.counters q → AtRest s.counters
        rested unlock_top r = r
        rested unlock_bottom r = r

  Step-Inv : {s t : System spin soft} → Step spin soft s t → Inv s → Inv t
  Step-Inv {s} (access i a) inv = Access-Inv inv i (s.pc i) refl a
  Step-Inv {s} (outside i {p} o) inv = outside-Inv inv i p s.gs_bottom_half (Outside-out o)
  Step-Inv {s} (take i k got) inv = take-Inv inv i (s.pc i) refl k got
  Step-Inv {s} (give i u) inv = give-Inv inv i (s.pc i) refl u
  Step-Inv {s} (schedule i e) inv =
      outside-Inv inv i idle (soft.tasklet_schedule s.gs_bottom_half) refl
  Step-Inv {s} (start_bottom i {b} e got) inv = outside-Inv inv i bottom_entered b refl

  pub Reach-Inv : {s : System spin soft} → Reach spin soft s → Inv s
  Reach-Inv here = Inv-initial
  Reach-Inv (next r st) = Step-Inv st (Reach-Inv r)

  -- With a lock that excludes, in every reachable state the values of `gs_shared_count` that the two
  -- halves have read are 1, 2, 3, … with no gap and none twice, modulo 2^64, and so are the numbers of
  -- the hardirqs, modulo 2^32.
  pub gap_free :
      {s : System spin soft}
      → Reach spin soft s
      → Counts (2 ^ 64) s.counters.vals × Counts (2 ^ 32) s.counters.seqs
  gap_free r = let inv = Reach-Inv r in (inv.counted_vals, inv.counted_seqs)

  -- While nobody holds the lock, `gs_shared_count` is the number of halves that have counted,
  -- `gs_hardirq_run_count` that of the top halves, and `gs_pending_seq` names the last one.
  pub at_rest :
      {s : System spin soft}
      → Reach spin soft s
      → ((i : ℕ) → spin.holds s.gs_counter_lock i ≡ false)
      → AtRest s.counters
  at_rest r free = (Reach-Inv r).rest free

  -- Two activations are never in the critical section together.
  pub mutual_exclusion :
      {s : System spin soft}
      → Reach spin soft s
      → (i j : ℕ) → in_critical (s.pc i) ≡ true
      → in_critical (s.pc j) ≡ true
      → i ≡ j
  mutual_exclusion {s} r i j in_i in_j =
      let inv = Reach-Inv r in
      spin.exclusive s.gs_counter_lock i j (inv.holder i in_i) (inv.holder j in_j)
