-- ===== src/Concurrency/Competition/Serial.antt =====
-- In every interleaving the halves act as if each ran in one piece, in the order of their locks.
use linux_kernel_samples.Base.{ℕ, ◌≡◌, refl, true, false, some, List, [], ◌∷◌, arith}
use linux_kernel_samples.Kernel.{Kernel, quiet, Out, out, and_then, M}
use linux_kernel_samples.Sample.{discard, state_of}
use linux_kernel_samples.Concurrency.Raisers.{
  Globals, interrupt_competition_top_half, interrupt_competition_bottom_half,
}
use linux_kernel_samples.Concurrency.Raisers as Raisers
use linux_kernel_samples.Concurrency.Competition.{
  SpinLock, Tasklet, schedule, start_bottom, idle, bottom_entered, Counters, Pc, top_run_load,
  bottom_seq, Access, Locking, lock_top, lock_bottom, Unlocking, unlock_top, unlock_bottom, update,
  System, Step, access, outside, take, give, Reach, here, next,
}
use linux_kernel_samples.Concurrency.Competition.Invariant.{
  in_critical, Access-in, Outside-out, Unlocking-in, Unlocking-out,
}
use linux_kernel_samples.Concurrency.Competition.Finish.{finish, Access-finish}
use linux_kernel_samples.Concurrency.Competition.Counting.{Inv, Reach-Inv, split}

pub data Half : Type 0 where
  top bottom : Half

abbrev pub half : Half → M Globals (Unit {0})
half top = discard interrupt_competition_top_half
half bottom = interrupt_competition_bottom_half

-- The halves one after the other, each in one piece, from a fresh module; the newest first.
abbrev pub serial : Kernel → List Half → Out Globals (Unit {0})
serial k [] = out tt Raisers.initial []
serial k (h ∷ hs) = and_then (serial k hs) (λ _ g t. half h (quiet k) g t)

-- The counters of the two models.
abbrev Same : Counters → Globals → Type 0
Same m g =
    (m.gs_shared_count ≡ g.gs_shared_count)
    × (m.gs_hardirq_run_count ≡ g.gs_hardirq_run_count)
    × (m.gs_pending_seq ≡ g.gs_pending_seq)

-- What each half finds in `gs_shared_count` after its increment, each top half in
-- `gs_hardirq_run_count`, and each bottom half in `gs_pending_seq`.
abbrev pub vals_of : Kernel → List Half → List ℕ
vals_of k [] = []
vals_of k (h ∷ hs) = (state_of (serial k (h ∷ hs))).gs_shared_count ∷ vals_of k hs

abbrev pub seqs_of : Kernel → List Half → List ℕ
seqs_of k [] = []
seqs_of k (top ∷ hs) = (state_of (serial k (top ∷ hs))).gs_hardirq_run_count ∷ seqs_of k hs
seqs_of k (bottom ∷ hs) = seqs_of k hs

abbrev pub picks_of : Kernel → List Half → List ℕ
picks_of k [] = []
picks_of k (top ∷ hs) = picks_of k hs
picks_of k (bottom ∷ hs) = (state_of (serial k hs)).gs_pending_seq ∷ picks_of k hs

-- The counters, and what has been read from them, are as the halves leave them in this order.
abbrev pub Agrees : Kernel → Counters → List Half → Type 0
Agrees k m hs =
    Same m (state_of (serial k hs))
    × (m.vals ≡ vals_of k hs)
    × (m.seqs ≡ seqs_of k hs)
    × (m.picks ≡ picks_of k hs)

-- A critical section does to the counters what the half does in one piece.
top-Same :
    (k : Kernel) (m : Counters) (o : Out Globals (Unit {0}))
    → Same m (state_of o)
    → Same (finish top_run_load m) (state_of (and_then o (λ _ g t. half top (quiet k) g t)))
unfolding interrupt_competition_top_half
top-Same k m (out _ g t) (shared, run, seq) = (rw shared, rw run, rw run)

bottom-Same :
    (k : Kernel) (m : Counters) (o : Out Globals (Unit {0}))
    → Same m (state_of o)
    → Same (finish bottom_seq m) (state_of (and_then o (λ _ g t. half bottom (quiet k) g t)))
unfolding interrupt_competition_bottom_half
bottom-Same k m (out _ g t) (shared, run, seq) = (rw shared, run, seq)

-- The half that takes the lock comes last.
locked :
    (k : Kernel) (m : Counters) {q p : Pc} (hs : List Half)
    → Locking q p
    → Agrees k m hs
    → (h : Half) × Agrees k (finish p m) (h ∷ hs)
locked k m hs lock_top (same, vals, seqs, picks) =
    let after = top-Same k m (serial k hs) same in
    (top, (after, (let e = after.0 in cc), (let e = after.1 in cc), picks))
locked k m hs lock_bottom (same, vals, seqs, picks) =
    let after = bottom-Same k m (serial k hs) same in
    (bottom, (after, (let e = after.0 in cc), seqs, (let e = same.2 in cc)))

module _ (k : Kernel) (spin : SpinLock) (soft : Tasklet) where
  -- Some order of the halves so far explains the counters, with the critical section that is open, if
  -- one is, run to its end.
  record Serializes (s : System spin soft) : Type 0 where
    order : List Half
    inside : (i : ℕ) → in_critical (s.pc i) ≡ true → Agrees k (finish (s.pc i) s.counters) order
    rest : ((i : ℕ) → spin.holds s.gs_counter_lock i ≡ false) → Agrees k s.counters order

  module _ {s : System spin soft} (inv : Inv spin soft s) (ser : Serializes s) where
    Access-Serializes :
        (i : ℕ) (q : Pc) {m : Counters} {p : Pc}
        → q ≡ s.pc i
        → Access s.counters q m p
        → Serializes (record s { counters = m; pc = update s.pc i p })
    Access-Serializes i q {m} {p} e a =
        let mine : spin.holds s.gs_counter_lock i ≡ true =
          inv.holder i (rw (← e) (Access-in a).0) in
        record {
          order = ser.order;
          inside =
              split (λ j p'. in_critical p' ≡ true → Agrees k (finish p' m) ser.order) s.pc i p
                (λ _. rw (Access-finish a, e) (ser.inside i (rw (← e) (Access-in a).0)))
                (λ j other c. absurd (
                  let same = spin.exclusive s.gs_counter_lock j i (inv.holder j c) mine in
                  ground arith));
          rest = λ free. absurd (let no = free i in cc);
        }

    outside-Serializes :
        (i : ℕ) (p : Pc) (b : soft.State)
        → in_critical p ≡ false
        → Serializes (record s { gs_bottom_half = b; pc = update s.pc i p })
    outside-Serializes i p b ends = record {
      order = ser.order;
      inside =
          split (λ j p'. in_critical p' ≡ true → Agrees k (finish p' s.counters) ser.order) s.pc i p
            (λ c. absurd cc) (λ j other. ser.inside j);
      rest = ser.rest;
    }

    take-Serializes :
        (i : ℕ) (q : Pc) {l : spin.State} {p : Pc}
        → Locking q p
        → spin.lock s.gs_counter_lock i ≡ some l
        → Serializes (record s { gs_counter_lock = l; pc = update s.pc i p })
    take-Serializes i q {l} {p} lk got =
        let free = spin.lock-waits s.gs_counter_lock i got in
        let (h, agrees) = locked k s.counters ser.order lk (ser.rest free) in
        record {
          order = h ∷ ser.order;
          inside =
              split
                (λ j p'. in_critical p' ≡ true → Agrees k (finish p' s.counters) (h ∷ ser.order))
                s.pc i p (λ _. agrees)
                (λ j other c. absurd (let held = inv.holder j c in let no = free j in cc));
          rest = λ none_holds.
              absurd
                (let held = spin.lock-holds s.gs_counter_lock i got in let no = none_holds i in cc);
        }

    give-Serializes :
        (i : ℕ) (q : Pc) {p : Pc}
        → q ≡ s.pc i
        → Unlocking q p
        → Serializes
            (record s { gs_counter_lock = spin.unlock s.gs_counter_lock i; pc = update s.pc i p })
    give-Serializes i q {p} e u = record {
      order = ser.order;
      inside =
          split (λ j p'. in_critical p' ≡ true → Agrees k (finish p' s.counters) ser.order) s.pc i p
            (λ c. absurd (let n = Unlocking-out u in cc)) (λ j other. ser.inside j);
      rest = λ _. ended u (rw e (ser.inside i (rw (← e) (Unlocking-in u))));
    }
      where
        ended :
            {q p : Pc}
            → Unlocking q p
            → Agrees k (finish q s.counters) ser.order
            → Agrees k s.counters ser.order
        ended unlock_top at = at
        ended unlock_bottom at = at

  Step-Serializes :
      {s t : System spin soft} → Step spin soft s t → Inv spin soft s → Serializes s → Serializes t
  Step-Serializes {s} (access i a) inv ser = Access-Serializes inv ser i (s.pc i) refl a
  Step-Serializes {s} (outside i {p} o) inv ser =
      outside-Serializes inv ser i p s.gs_bottom_half (Outside-out o)
  Step-Serializes {s} (take i lk got) inv ser = take-Serializes inv ser i (s.pc i) lk got
  Step-Serializes {s} (give i u) inv ser = give-Serializes inv ser i (s.pc i) refl u
  Step-Serializes {s} (schedule i e) inv ser =
      outside-Serializes inv ser i idle (soft.tasklet_schedule s.gs_bottom_half) refl
  Step-Serializes {s} (start_bottom i {b} e got) inv ser =
      outside-Serializes inv ser i bottom_entered b refl

  Reach-Serializes : {s : System spin soft} → Reach spin soft s → Serializes s
  Reach-Serializes here = record {
    order = [];
    inside = λ i c. absurd cc;
    rest = λ _. ((refl, refl, refl), refl, refl, refl);
  }
  Reach-Serializes (next r st) = Step-Serializes st (Reach-Inv spin soft r) (Reach-Serializes r)

  -- With a lock that excludes, in every reachable state in which nobody holds it, the three counters, and
  -- all that the halves have read from them, are as if the halves had run one after the other, each in one piece, in some order, from a load on.
  pub Reach-serial :
      {s : System spin soft}
      → Reach spin soft s
      → ((i : ℕ) → spin.holds s.gs_counter_lock i ≡ false)
      → (order : List Half) × Agrees k s.counters order
  Reach-serial r free = let ser = Reach-Serializes r in (ser.order, ser.rest free)
