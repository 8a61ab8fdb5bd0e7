-- ===== src/Tests/Counters.antt =====
-- A lock that records its holder, and a run in which one top half counts while another waits.
use linux_kernel_samples.Base.{
  ℕ, ◌^◌, ◌≡◌, refl, Bool, true, false, Option, none, some, arith, ◌==◌, ==_refl, List,
}
use linux_kernel_samples.Tests.Machine.{machine}
use linux_kernel_samples.Concurrency.Competition.{
  idle, top_entered, top_run_load, SpinLock, Tasklet, schedule, start_bottom, lock_bottom, read_seq,
  load_shared_bottom, store_shared_bottom, read_val_bottom, unlock_bottom, print_top, print_bottom,
  load_run, store_run, read_n, load_shared, store_shared, read_val, store_seq, start_top, lock_top,
  unlock_top, System, access, outside, take, give, Reach, here, next,
}
use linux_kernel_samples.Concurrency.Competition.Invariant.{Counts, AtRest}
use linux_kernel_samples.Concurrency.Competition.Counting.{gap_free, at_rest, mutual_exclusion}
use linux_kernel_samples.Concurrency.Competition.Serial.{Half, Agrees, Reach-serial}
use linux_kernel_samples.Concurrency.Competition.Picks.{all_in, picks_known}
use linux_kernel_samples.Concurrency.Competition.Covered.{last_pick, last_pick_covered}
use linux_kernel_samples.Concurrency.Competition.Cpus.{CpuReach, boot, later, on_cpu}
use linux_kernel_samples.Concurrency.Competition.Progress.{CanEnd, each-CanEnd}

abbrev is_holder : Option ℕ → ℕ → Bool
is_holder none i = false
is_holder (some j) i = j == i

abbrev take_lock : Option ℕ → ℕ → Option (Option ℕ)
take_lock none i = some (some i)
take_lock (some j) i = none

is_holder_unique : (s : Option ℕ) (i j : ℕ) → is_holder s i ≡ true → is_holder s j ≡ true → i ≡ j
is_holder_unique none i j e f = absurd (cc)
is_holder_unique (some h) i j e f = ground arith

take_lock-free :
    (s : Option ℕ) (i : ℕ) {t : Option ℕ} → take_lock s i ≡ some t → (j : ℕ) → is_holder s j ≡ false
take_lock-free none i e j = refl
take_lock-free (some h) i e j = absurd (cc)

take_lock-holds :
    (s : Option ℕ) (i : ℕ) {t : Option ℕ} → take_lock s i ≡ some t → is_holder t i ≡ true
take_lock-holds none i e = grind arith
take_lock-holds (some h) i e = absurd (cc)

take_lock-fails : (s : Option ℕ) (i : ℕ) → take_lock s i ≡ none → (j : ℕ) × (is_holder s j ≡ true)
take_lock-fails none i e = absurd (cc)
take_lock-fails (some h) i e = (h, ==_refl h)

abbrev owned : SpinLock
owned = record {
  State = Option ℕ;
  unlocked = none;
  holds = is_holder;
  lock = take_lock;
  unlock = λ s i. none;
  holds-unlocked = λ i. refl;
  exclusive = is_holder_unique;
  lock-waits = take_lock-free;
  lock-holds = take_lock-holds;
  lock-fails = take_lock-fails;
  unlock-frees = λ s i e j. refl;
}

abbrev start_if : Bool → Option Bool
start_if true = some false
start_if false = none

start_if-scheduled : (b : Bool) {t : Bool} → start_if b ≡ some t → b ≡ true
start_if-scheduled true e = refl
start_if-scheduled false e = absurd (cc)

-- One bit, which a start clears.
abbrev one_bit : Tasklet
one_bit = record {
  State = Bool;
  unscheduled = false;
  is_scheduled = λ b. b;
  tasklet_schedule = λ b. true;
  start = start_if;
  not-scheduled = refl;
  schedule-scheduled = λ b. refl;
  start-scheduled = start_if-scheduled;
}

-- The number of the activation that takes the lock first.
abbrev first : ℕ
first = 0

-- Activation 1 has entered its top half and waits; activation 0 goes through its critical section.
abbrev waiting : (s : System owned one_bit) × Reach owned one_bit s
waiting =
    (_, next (next (next here (outside 0 start_top)) (outside 1 start_top)) (take 0 lock_top refl))

abbrev counted : (s : System owned one_bit) × Reach owned one_bit s
counted = (
  _,
  next
      (next
        (next
          (next
            (next (next (next (waiting.1) (access 0 load_run)) (access 0 store_run))
              (access 0 read_n))
            (access 0 load_shared))
          (access 0 store_shared))
        (access 0 read_val))
      (access 0 store_seq),
)

abbrev given : (s : System owned one_bit) × Reach owned one_bit s
given = (_, next counted.1 (give 0 unlock_top))

gap_free_example : Counts (2 ^ 64) counted.0.counters.vals × Counts (2 ^ 32) counted.0.counters.seqs
gap_free_example = gap_free owned one_bit counted.1

at_rest_example : AtRest given.0.counters
at_rest_example = at_rest owned one_bit given.1 (λ i. refl)

mutual_exclusion_example : first ≡ first
mutual_exclusion_example = mutual_exclusion owned one_bit counted.1 first first refl refl

Reach-serial_example : (order : List Half) × Agrees machine given.0.counters order
Reach-serial_example = Reach-serial machine owned one_bit given.1 (λ i. refl)

-- The top half of CPU 0 holds the lock, that of CPU 1 waits.
abbrev waiting_on_cpus : (s : System owned one_bit) × CpuReach owned one_bit s
waiting_on_cpus = (
  _,
  later
      (later (later boot (on_cpu 0 top_entered (outside 0 start_top) refl refl))
        (on_cpu 2 top_entered (outside 2 start_top) refl refl))
      (on_cpu 0 top_run_load (take 0 lock_top refl) refl refl),
)

each-CanEnd_example : CanEnd owned one_bit waiting_on_cpus.0 2
each-CanEnd_example = each-CanEnd owned one_bit waiting_on_cpus.1 2

-- One top half and the bottom half that it schedules, to their ends.
abbrev top_done : (s : System owned one_bit) × Reach owned one_bit s
top_done = (
  _,
  next
      (next
        (next
          (next
            (next
              (next
                (next
                  (next
                    (next
                      (next (next (next here (outside 0 start_top)) (take 0 lock_top refl))
                        (access 0 load_run))
                      (access 0 store_run))
                    (access 0 read_n))
                  (access 0 load_shared))
                (access 0 store_shared))
              (access 0 read_val))
            (access 0 store_seq))
          (give 0 unlock_top))
        (outside 0 print_top))
      (schedule 0 refl),
)

abbrev both_done : (s : System owned one_bit) × Reach owned one_bit s
both_done = (
  _,
  next
      (next
        (next
          (next
            (next
              (next (next (next top_done.1 (start_bottom 0 refl refl)) (take 0 lock_bottom refl))
                (access 0 read_seq))
              (access 0 load_shared_bottom))
            (access 0 store_shared_bottom))
          (access 0 read_val_bottom))
        (give 0 unlock_bottom))
      (outside 0 print_bottom),
)

picks_known_example : all_in both_done.0.counters.picks both_done.0.counters.seqs ≡ true
picks_known_example = picks_known owned one_bit both_done.1

both_done-idle : (i : ℕ) → both_done.0.pc i ≡ idle
both_done-idle i = ground arith

last_pick_covered_example : last_pick both_done.0.counters.picks ≡ 1
last_pick_covered_example = last_pick_covered owned one_bit both_done.1 refl both_done-idle
