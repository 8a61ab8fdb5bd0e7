-- ===== src/Concurrency/Competition/Moves.antt =====
-- The steps that are open to one activation, and how many it has left.
use linux_kernel_samples.Base.{ℕ, suc, ◌≡◌, ◌≢◌, refl, Bool, true, false, arith, ==_refl}
use linux_kernel_samples.Concurrency.Competition.{
  Counters, Pc, idle, top_entered, top_run_load, top_run_store, top_n, top_shared_load,
  top_shared_store, top_val, top_seq, top_unlock, top_print, top_schedule, bottom_entered,
  bottom_seq, bottom_shared_load, bottom_shared_store, bottom_val, bottom_unlock, bottom_print,
  Access, load_run, store_run, read_n, load_shared, store_shared, read_val, store_seq, read_seq,
  load_shared_bottom, store_shared_bottom, read_val_bottom, Outside, print_top, print_bottom,
  Locking, lock_top, lock_bottom, Unlocking, unlock_top, unlock_bottom, update,
}
use linux_kernel_samples.Concurrency.Competition.Invariant.{in_critical}

-- The steps that an activation has left.
abbrev pub rank : Pc → ℕ
rank idle = 0
rank top_schedule = 1
rank (top_print n val) = 2
rank (top_unlock n val) = 3
rank (top_seq n val) = 4
rank (top_val n) = 5
rank (top_shared_store n count) = 6
rank (top_shared_load n) = 7
rank top_n = 8
rank (top_run_store run) = 9
rank top_run_load = 10
rank top_entered = 11
rank (bottom_print seq val) = 1
rank (bottom_unlock seq val) = 2
rank (bottom_val seq) = 3
rank (bottom_shared_store seq count) = 4
rank (bottom_shared_load seq) = 5
rank bottom_seq = 6
rank bottom_entered = 7

-- Before `spin_lock_irqsave`.
abbrev pub is_entered : Pc → Bool
is_entered top_entered = true
is_entered bottom_entered = true
is_entered _ = false

-- A step that is open to an activation that does not wait for the lock.
pub data Move (m : Counters) (q : Pc) : Type 0 where
  by_access :
      {m' : Counters} {p : Pc}
      → Access m q m' p
      → rank q ≡ suc (rank p)
      → is_entered p ≡ false
      → Move m q
  by_unlock : {p : Pc} → Unlocking q p → rank q ≡ suc (rank p) → is_entered p ≡ false → Move m q
  by_print : {p : Pc} → Outside q p → rank q ≡ suc (rank p) → is_entered p ≡ false → Move m q
  by_schedule : q ≡ top_schedule → Move m q

pub rank-Move : (m : Counters) (q : Pc) → is_entered q ≡ false → rank q ≢ 0 → Move m q
rank-Move m idle e r = absurd (r refl)
rank-Move m top_entered e r = absurd (cc)
rank-Move m top_run_load e r = by_access load_run refl refl
rank-Move m (top_run_store run) e r = by_access store_run refl refl
rank-Move m top_n e r = by_access read_n refl refl
rank-Move m (top_shared_load n) e r = by_access load_shared refl refl
rank-Move m (top_shared_store n count) e r = by_access store_shared refl refl
rank-Move m (top_val n) e r = by_access read_val refl refl
rank-Move m (top_seq n val) e r = by_access store_seq refl refl
rank-Move m (top_unlock n val) e r = by_unlock unlock_top refl refl
rank-Move m (top_print n val) e r = by_print print_top refl refl
rank-Move m top_schedule e r = by_schedule refl
rank-Move m bottom_entered e r = absurd (cc)
rank-Move m bottom_seq e r = by_access read_seq refl refl
rank-Move m (bottom_shared_load seq) e r = by_access load_shared_bottom refl refl
rank-Move m (bottom_shared_store seq count) e r = by_access store_shared_bottom refl refl
rank-Move m (bottom_val seq) e r = by_access read_val_bottom refl refl
rank-Move m (bottom_unlock seq val) e r = by_unlock unlock_bottom refl refl
rank-Move m (bottom_print seq val) e r = by_print print_bottom refl refl

pub rank-idle : (q : Pc) → rank q ≡ 0 → q ≡ idle
rank-idle idle e = refl
rank-idle q e = absurd (omega (arith, e))

abbrev pub locked_pc : Pc → Pc
locked_pc top_entered = top_run_load
locked_pc bottom_entered = bottom_seq
locked_pc q = q

pub locking :
    (q : Pc) → is_entered q ≡ true → Locking q (locked_pc q) × (is_entered (locked_pc q) ≡ false)
locking top_entered e = (lock_top, refl)
locking bottom_entered e = (lock_bottom, refl)
locking q e = absurd (cc)

pub critical_rank : (q : Pc) → in_critical q ≡ true → is_entered q ≡ false
critical_rank top_entered e = absurd cc
critical_rank bottom_entered e = absurd cc
critical_rank q e = refl

pub update-at : (f : ℕ → Pc) (i : ℕ) (p : Pc) → update f i p i ≡ p
update-at f i p = rw (==_refl i)

pub update-other : (f : ℕ → Pc) (i : ℕ) (p : Pc) (j : ℕ) → j ≢ i → update f i p j ≡ f j
update-other f i p j other = ground arith
