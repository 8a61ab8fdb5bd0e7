-- ===== src/Concurrency/Competition.antt =====
-- interrupts/concurrency/interrupt_competition.c: the top and bottom halves as they share counters, one
-- access at a time, in any interleaving. An activation is one run of a handler on some CPU; activations
-- are numbered, and each is idle before it starts and after it ends.
pub mod Invariant
pub mod Counting
mod Finish
pub mod Picks
pub mod Covered
pub mod Serial
mod Moves
pub mod Cpus
pub mod Progress
use linux_kernel_samples.Base.{
  ℕ, suc, ◌+◌, ◌%◌, ◌^◌, ◌≡◌, ◌≢◌, Bool, true, false, Option, none, some, List, [], ◌∷◌, ◌==◌,
  if◌then◌else◌,
}

-- <linux/spinlock.h>: `holds s i` says that activation `i` holds the lock. `lock` waits where it gives
-- `none`.
pub record SpinLock : Type 1 where
  pub State : Type 0
  pub unlocked : State
  pub holds : State → ℕ → Bool
  pub lock : State → ℕ → Option State
  pub unlock : State → ℕ → State
  pub holds-unlocked : (i : ℕ) → holds unlocked i ≡ false
  pub exclusive : (s : State) (i j : ℕ) → holds s i ≡ true → holds s j ≡ true → i ≡ j
  pub lock-waits : (s : State) (i : ℕ) {t : State} → lock s i ≡ some t → (j : ℕ) → holds s j ≡ false
  pub lock-holds : (s : State) (i : ℕ) {t : State} → lock s i ≡ some t → holds t i ≡ true
  pub lock-fails : (s : State) (i : ℕ) → lock s i ≡ none → (j : ℕ) × (holds s j ≡ true)
  pub unlock-frees : (s : State) (i : ℕ) → holds s i ≡ true → (j : ℕ) → holds (unlock s i) j ≡ false

-- <linux/interrupt.h>: the tasklet of the bottom half. It is started only while it is scheduled.
pub record Tasklet : Type 1 where
  pub State : Type 0
  pub unscheduled : State
  pub is_scheduled : State → Bool
  pub tasklet_schedule : State → State
  pub start : State → Option State
  pub not-scheduled : is_scheduled unscheduled ≡ false
  pub schedule-scheduled : (s : State) → is_scheduled (tasklet_schedule s) ≡ true
  pub start-scheduled : (s : State) {t : State} → start s ≡ some t → is_scheduled s ≡ true

-- The counters, with what has been read from them so far, the newest first: `vals` and `seqs` hold what
-- each activation stored in its `val` and `n`, and `picks` what each bottom half stored in its `seq`.
pub record Counters : Type 0 where
  pub gs_shared_count : ℕ  -- unsigned long
  pub gs_hardirq_run_count : ℕ  -- unsigned int
  pub gs_pending_seq : ℕ
  pub vals : List ℕ
  pub seqs : List ℕ
  pub picks : List ℕ

-- Where an activation stands, with its live local variables. A `++` is a load and a store.
pub data Pc : Type 0 where
  idle : Pc
  top_entered : Pc
  top_run_load : Pc
  top_run_store : (run : ℕ) → Pc
  top_n : Pc
  top_shared_load : (n : ℕ) → Pc
  top_shared_store : (n count : ℕ) → Pc
  top_val : (n : ℕ) → Pc
  top_seq : (n val : ℕ) → Pc
  top_unlock : (n val : ℕ) → Pc
  top_print : (n val : ℕ) → Pc
  top_schedule : Pc
  bottom_entered : Pc
  bottom_seq : Pc
  bottom_shared_load : (seq : ℕ) → Pc
  bottom_shared_store : (seq count : ℕ) → Pc
  bottom_val : (seq : ℕ) → Pc
  bottom_unlock : (seq val : ℕ) → Pc
  bottom_print : (seq val : ℕ) → Pc

-- One access of an activation inside its critical section.
pub data Access (m : Counters) : Pc → Counters → Pc → Type 0 where
  load_run : Access m top_run_load m (top_run_store m.gs_hardirq_run_count)
  store_run :
      {run : ℕ}
      → Access m (top_run_store run) (record m { gs_hardirq_run_count = (run + 1) % 2 ^ 32 }) top_n
  read_n :
      Access m top_n
        (record m { seqs = m.gs_hardirq_run_count ∷ m.seqs })
        (top_shared_load m.gs_hardirq_run_count)
  load_shared : {n : ℕ} → Access m (top_shared_load n) m (top_shared_store n m.gs_shared_count)
  store_shared :
      {n count : ℕ}
      → Access m
          (top_shared_store n count)
          (record m { gs_shared_count = (count + 1) % 2 ^ 64 })
          (top_val n)
  read_val :
      {n : ℕ}
      → Access m
          (top_val n)
          (record m { vals = m.gs_shared_count ∷ m.vals })
          (top_seq n m.gs_shared_count)
  store_seq :
      {n val : ℕ} → Access m (top_seq n val) (record m { gs_pending_seq = n }) (top_unlock n val)
  read_seq :
      Access m bottom_seq
        (record m { picks = m.gs_pending_seq ∷ m.picks })
        (bottom_shared_load m.gs_pending_seq)
  load_shared_bottom :
      {seq : ℕ} → Access m (bottom_shared_load seq) m (bottom_shared_store seq m.gs_shared_count)
  store_shared_bottom :
      {seq count : ℕ}
      → Access m
          (bottom_shared_store seq count)
          (record m { gs_shared_count = (count + 1) % 2 ^ 64 })
          (bottom_val seq)
  read_val_bottom :
      {seq : ℕ}
      → Access m
          (bottom_val seq)
          (record m { vals = m.gs_shared_count ∷ m.vals })
          (bottom_unlock seq m.gs_shared_count)

-- Steps that touch neither the counters nor the lock nor the tasklet: the kernel starts a top half, and a
-- half prints its line.
pub data Outside : Pc → Pc → Type 0 where
  start_top : Outside idle top_entered
  print_top : {n val : ℕ} → Outside (top_print n val) top_schedule
  print_bottom : {seq val : ℕ} → Outside (bottom_print seq val) idle

pub data Locking : Pc → Pc → Type 0 where
  lock_top : Locking top_entered top_run_load
  lock_bottom : Locking bottom_entered bottom_seq

pub data Unlocking : Pc → Pc → Type 0 where
  unlock_top : {n val : ℕ} → Unlocking (top_unlock n val) (top_print n val)
  unlock_bottom : {seq val : ℕ} → Unlocking (bottom_unlock seq val) (bottom_print seq val)

abbrev pub update : (ℕ → Pc) → ℕ → Pc → ℕ → Pc
update f i p j = if j == i then p else f j

abbrev pub zero_counters : Counters
zero_counters = record {
  gs_shared_count = 0;
  gs_hardirq_run_count = 0;
  gs_pending_seq = 0;
  vals = [];
  seqs = [];
  picks = [];
}

module _ (spin : SpinLock) (soft : Tasklet) where
  pub record System : Type 0 where
    pub gs_counter_lock : spin.State
    pub gs_bottom_half : soft.State
    pub counters : Counters
    pub pc : ℕ → Pc

  -- One step of activation `i`.
  pub data Step (s : System) : System → Type 0 where
    access :
        (i : ℕ) {m : Counters} {p : Pc}
        → Access s.counters (s.pc i) m p
        → Step s (record s { counters = m; pc = update s.pc i p })
    outside : (i : ℕ) {p : Pc} → Outside (s.pc i) p → Step s (record s { pc = update s.pc i p })
    take :
        (i : ℕ) {l : spin.State} {p : Pc}
        → Locking (s.pc i) p
        → spin.lock s.gs_counter_lock i ≡ some l
        → Step s (record s { gs_counter_lock = l; pc = update s.pc i p })
    give :
        (i : ℕ) {p : Pc}
        → Unlocking (s.pc i) p
        → Step s
            (record s { gs_counter_lock = spin.unlock s.gs_counter_lock i; pc = update s.pc i p })
    schedule :
        (i : ℕ)
        → s.pc i ≡ top_schedule
        → Step s (record s {
          gs_bottom_half = soft.tasklet_schedule s.gs_bottom_half;
          pc = update s.pc i idle;
        })
    start_bottom :
        (i : ℕ) {b : soft.State}
        → s.pc i ≡ idle
        → soft.start s.gs_bottom_half ≡ some b
        → Step s (record s { gs_bottom_half = b; pc = update s.pc i bottom_entered })

  abbrev pub initial : System
  initial = record {
    gs_counter_lock = spin.unlocked;
    gs_bottom_half = soft.unscheduled;
    counters = zero_counters;
    pc = λ _. idle;
  }

  pub data Reach : System → Type 0 where
    here : Reach initial
    next : {s t : System} → Reach s → Step s t → Reach t
