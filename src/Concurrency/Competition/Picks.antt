-- ===== src/Concurrency/Competition/Picks.antt =====
-- Which hardirqs the bottom halves pick up.
use linux_kernel_samples.Base.{
  ℕ, ◌^◌, ◌≡◌, refl, ◌∙◌, sym, Bool, true, false, ◌||◌, ◌&&◌, ◌≢◌, ◌%◌, List, [], ◌∷◌, arith, ◌==◌,
}
use linux_kernel_samples.Concurrency.Competition.{
  SpinLock, Tasklet, Counters, Pc, idle, top_entered, top_run_load, top_run_store, top_n,
  bottom_entered, Access, load_run, store_run, read_n, read_seq, Outside, start_top, print_top,
  print_bottom, Locking, lock_top, lock_bottom, Unlocking, unlock_top, unlock_bottom, update,
  System, Step, access, outside, take, give, schedule, start_bottom, Reach, here, next,
}
use linux_kernel_samples.Concurrency.Competition.Invariant.{Counts, length, Fact}
use linux_kernel_samples.Concurrency.Competition.Counting.{Inv, Reach-Inv, split}

abbrev pub has : ℕ → List ℕ → Bool
has n [] = false
has n (x ∷ xs) = (n == x) || has n xs

abbrev pub all_in : List ℕ → List ℕ → Bool
all_in [] ys = true
all_in (x ∷ xs) ys = has x ys && all_in xs ys

all_in-cons : (xs ys : List ℕ) (y : ℕ) → all_in xs ys ≡ true → all_in xs (y ∷ ys) ≡ true
all_in-cons [] ys y h = refl
all_in-cons (x ∷ xs) ys y h = ground (arith, all_in-cons xs ys y)

-- Before a top half has taken its number.
abbrev is_early : Pc → Bool
is_early idle = true
is_early top_entered = true
is_early top_run_load = true
is_early (top_run_store run) = true
is_early top_n = true
is_early _ = false

newest :
    (seq run : ℕ) (seqs : List ℕ)
    → Counts (2 ^ 32) seqs
    → run ≡ length seqs % 2 ^ 32
    → seq ≡ run
    → length seqs ≢ 0
    → has seq seqs ≡ true
newest seq run [] counted e f some_ran = absurd (some_ran refl)
newest seq run (x ∷ xs) counted e f some_ran =
    let first : seq ≡ x = f ∙ e ∙ sym counted.0 in rw first (ground arith)

-- Until a top half has taken its number, no activation is further than that.
abbrev Early : Counters → Pc → Type 0
Early m q = length m.seqs ≡ 0 → is_early q ≡ true

Access-all_in :
    {m m' : Counters} {q p : Pc}
    → Access m q m' p
    → Fact m q
    → Counts (2 ^ 32) m.seqs
    → Early m q
    → all_in m.picks m.seqs ≡ true
    → all_in m'.picks m'.seqs ≡ true
Access-all_in load_run f counted early known = known
Access-all_in {m} read_n f counted early known =
    all_in-cons m.picks m.seqs m.gs_hardirq_run_count known
Access-all_in {m} read_seq f counted early known =
    let first : has m.gs_pending_seq m.seqs ≡ true =
      newest m.gs_pending_seq m.gs_hardirq_run_count m.seqs counted f.runs f.pending
        (λ z. let no_early = early z in cc) in
    rw (first, known)
Access-all_in _ f counted early known = known

Access-Early :
    {m m' : Counters} {q p : Pc}
    → Access m q m' p
    → Early m q
    → length m'.seqs ≡ 0
    → (is_early p ≡ true) × (length m.seqs ≡ 0)
Access-Early load_run early z = (refl, z)
Access-Early read_n early z = absurd (omega (arith, z))
Access-Early store_run early z = (refl, z)
Access-Early _ early z = absurd (let e = early z in cc)

Outside-early : {q p : Pc} → Outside q p → is_early q ≡ true → is_early p ≡ true
Outside-early start_top e = refl
Outside-early print_top e = e
Outside-early print_bottom e = absurd cc

Locking-early : {q p : Pc} → Locking q p → is_early q ≡ true → is_early p ≡ true
Locking-early lock_top e = refl
Locking-early lock_bottom e = e

Unlocking-late : {q p : Pc} → Unlocking q p → is_early q ≢ true
Unlocking-late unlock_top e = cc
Unlocking-late unlock_bottom e = cc

module _ (spin : SpinLock) (soft : Tasklet) where
  record Picked (s : System spin soft) : Type 0 where
    known : all_in s.counters.picks s.counters.seqs ≡ true
    unscheduled : length s.counters.seqs ≡ 0 → soft.is_scheduled s.gs_bottom_half ≡ false
    early : (i : ℕ) → Early s.counters (s.pc i)

  module _ {s : System spin soft} (inv : Inv spin soft s) (at : Picked s) where
    Access-Picked :
        (i : ℕ) (q : Pc) {m : Counters} {p : Pc}
        → q ≡ s.pc i
        → Access s.counters q m p
        → Picked (record s { counters = m; pc = update s.pc i p })
    Access-Picked i q {m} {p} e a =
        let mine : Early s.counters q = rw e (at.early i) in
        record {
          known = Access-all_in a (rw e (inv.facts i)) inv.counted_seqs mine at.known;
          unscheduled = λ z. at.unscheduled (Access-Early a mine z).1;
          early =
              split (λ j p'. Early m p') s.pc i p (λ z. (Access-Early a mine z).0)
                (λ j other z. at.early j (Access-Early a mine z).1);
        }

    -- A step that leaves the counters alone.
    moved-Picked :
        (i : ℕ) (p : Pc) (l : spin.State) (b : soft.State)
        → (length s.counters.seqs ≡ 0 → (is_early p ≡ true) × (soft.is_scheduled b ≡ false))
        → Picked (record s { gs_counter_lock = l; gs_bottom_half = b; pc = update s.pc i p })
    moved-Picked i p l b keeps = record {
      known = at.known;
      unscheduled = λ z. (keeps z).1;
      early =
          split (λ j p'. Early s.counters p') s.pc i p (λ z. (keeps z).0) (λ j other. at.early j);
    }

  Step-Picked :
      {s t : System spin soft} → Step spin soft s t → Inv spin soft s → Picked s → Picked t
  Step-Picked {s} (access i a) inv at = Access-Picked inv at i (s.pc i) refl a
  Step-Picked {s} (outside i {p} o) inv at =
      moved-Picked inv at i p s.gs_counter_lock s.gs_bottom_half
        λ z. (Outside-early o (at.early i z), at.unscheduled z)
  Step-Picked {s} (take i {l} {p} k got) inv at =
      moved-Picked inv at i p l s.gs_bottom_half
        λ z. (Locking-early k (at.early i z), at.unscheduled z)
  Step-Picked {s} (give i {p} u) inv at =
      moved-Picked inv at i p (spin.unlock s.gs_counter_lock i) s.gs_bottom_half
        λ z. absurd (Unlocking-late u (at.early i z))
  Step-Picked {s} (schedule i e) inv at =
      moved-Picked inv at i idle s.gs_counter_lock (soft.tasklet_schedule s.gs_bottom_half)
        λ z. absurd (let now = rw e at (at.early i z) in cc)
  Step-Picked {s} (start_bottom i {b} e got) inv at =
      moved-Picked inv at i bottom_entered s.gs_counter_lock b λ z.
        absurd (
          let no_one = at.unscheduled z in
          let one = soft.start-scheduled s.gs_bottom_half got in cc)

  Reach-Picked : {s : System spin soft} → Reach spin soft s → Picked s
  Reach-Picked here = record {
    known = refl;
    unscheduled = λ z. soft.not-scheduled;
    early = λ i z. refl;
  }
  Reach-Picked (next r st) = Step-Picked st (Reach-Inv spin soft r) (Reach-Picked r)

  -- With a lock that excludes, and a tasklet that starts only while it is scheduled: in every reachable
  -- state, each number that a bottom half has picked up is one that a top half has taken.
  pub picks_known :
      {s : System spin soft} → Reach spin soft s → all_in s.counters.picks s.counters.seqs ≡ true
  picks_known r = (Reach-Picked r).known
