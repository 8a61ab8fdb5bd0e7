-- ===== src/Concurrency/Competition/Covered.antt =====
-- No hardirq stays without a bottom half that picks it up.
use linux_kernel_samples.Base.{
  ℕ, ◌≡◌, refl, Bool, true, false, Bool-cases, inl, inr, List, [], ◌∷◌, arith, ◌==◌, ==_refl,
}
use linux_kernel_samples.Concurrency.Competition.{
  SpinLock, Tasklet, Counters, Pc, idle, top_unlock, top_print, top_schedule, bottom_entered,
  bottom_seq, Access, load_run, store_seq, read_seq, Outside, start_top, print_top, print_bottom,
  Locking, lock_top, lock_bottom, Unlocking, unlock_top, unlock_bottom, update, System, Step,
  access, outside, take, give, schedule, start_bottom, Reach, here, next,
}

-- What the last bottom half has picked up, or 0.
abbrev pub last_pick : List ℕ → ℕ
last_pick [] = 0
last_pick (x ∷ xs) = x

-- A half on its way to the pick of the last hardirq.
abbrev owes : Pc → Bool
owes (top_unlock n val) = true
owes (top_print n val) = true
owes top_schedule = true
owes bottom_entered = true
owes bottom_seq = true
owes _ = false

-- What an access does for that.
data Part (m : Counters) (q : Pc) (m' : Counters) (p : Pc) : Type 0 where
  stamps : owes p ≡ true → Part m q m' p
  picks_up : last_pick m'.picks ≡ m'.gs_pending_seq → Part m q m' p
  neither :
      m'.picks ≡ m.picks → m'.gs_pending_seq ≡ m.gs_pending_seq → owes q ≡ false → Part m q m' p

Access-Part : {m m' : Counters} {q p : Pc} → Access m q m' p → Part m q m' p
Access-Part load_run = neither refl refl refl
Access-Part store_seq = stamps refl
Access-Part read_seq = picks_up refl
Access-Part _ = neither refl refl refl

Outside-owes : {q p : Pc} → Outside q p → owes q ≡ true → owes p ≡ true
Outside-owes start_top e = absurd cc
Outside-owes print_top e = refl
Outside-owes print_bottom e = absurd cc

Locking-owes : {q p : Pc} → Locking q p → owes q ≡ true → owes p ≡ true
Locking-owes lock_top e = absurd cc
Locking-owes lock_bottom e = refl

Unlocking-owes : {q p : Pc} → Unlocking q p → owes q ≡ true → owes p ≡ true
Unlocking-owes unlock_top e = refl
Unlocking-owes unlock_bottom e = absurd cc

module _ (spin : SpinLock) (soft : Tasklet) where
  -- The last hardirq has been picked up, or the tasklet is scheduled, or a half is on its way.
  data Covered (s : System spin soft) : Type 0 where
    picked : last_pick s.counters.picks ≡ s.counters.gs_pending_seq → Covered s
    waits : soft.is_scheduled s.gs_bottom_half ≡ true → Covered s
    on_way : (j : ℕ) → owes (s.pc j) ≡ true → Covered s

  -- After a step of activation `i`, on whose own part the cases turn.
  carry :
      (s : System spin soft) (i : ℕ) (p : Pc) (l : spin.State) (b : soft.State) (m : Counters)
      → let t : System spin soft = record {
        gs_counter_lock = l;
        gs_bottom_half = b;
        counters = m;
        pc = update s.pc i p;
      } in
        (last_pick s.counters.picks ≡ s.counters.gs_pending_seq → Covered t)
        → (soft.is_scheduled s.gs_bottom_half ≡ true → Covered t)
        → (owes (s.pc i) ≡ true → Covered t)
        → Covered s
        → Covered t
  carry s i p l b m when_picked when_waits when_mine (picked e) = when_picked e
  carry s i p l b m when_picked when_waits when_mine (waits e) = when_waits e
  carry s i p l b m when_picked when_waits when_mine (on_way j e) = elim (Bool-cases (j == i)) [
    | inl same ↦ let at : j ≡ i = ground arith in when_mine (rw at at e)
    | inr other ↦ on_way j (rw other e)
  ]

  arrives :
      (s : System spin soft) (i : ℕ) (p : Pc) (l : spin.State) (b : soft.State) (m : Counters)
      → owes p ≡ true
      → Covered
          (record { gs_counter_lock = l; gs_bottom_half = b; counters = m; pc = update s.pc i p })
  arrives s i p l b m e = on_way i (rw (==_refl i) e)

  Step-Covered : {s t : System spin soft} → Step spin soft s t → Covered s → Covered t
  Step-Covered {s} (access i {m} {p} a) c = elim (Access-Part a) [
    | stamps e ↦ arrives s i p s.gs_counter_lock s.gs_bottom_half m e
    | picks_up e ↦ picked e
    | neither e f calm ↦
        carry s i p s.gs_counter_lock s.gs_bottom_half m (λ at. picked (rw (e, f) at)) waits
          (λ mine. absurd cc) c
  ]
  Step-Covered {s} (outside i {p} o) c =
      carry s i p s.gs_counter_lock s.gs_bottom_half s.counters picked waits
        (λ mine. arrives s i p s.gs_counter_lock s.gs_bottom_half s.counters (Outside-owes o mine))
        c
  Step-Covered {s} (take i {l} {p} k got) c =
      carry s i p l s.gs_bottom_half s.counters picked waits
        (λ mine. arrives s i p l s.gs_bottom_half s.counters (Locking-owes k mine)) c
  Step-Covered {s} (give i {p} u) c =
      let l : spin.State = spin.unlock s.gs_counter_lock i in
      carry s i p l s.gs_bottom_half s.counters picked waits
        (λ mine. arrives s i p l s.gs_bottom_half s.counters (Unlocking-owes u mine)) c
  Step-Covered {s} (schedule i e) c = waits (soft.schedule-scheduled s.gs_bottom_half)
  Step-Covered {s} (start_bottom i {b} e got) c =
      arrives s i bottom_entered s.gs_counter_lock b s.counters refl

  Reach-Covered : {s : System spin soft} → Reach spin soft s → Covered s
  Reach-Covered here = picked refl
  Reach-Covered (next r st) = Step-Covered st (Reach-Covered r)

  -- Where the tasklet is not scheduled and no half is running, in a reachable state: what the last bottom
  -- half has picked up is the number that the last top half has stamped, so that no hardirq is left out.
  pub last_pick_covered :
      {s : System spin soft}
      → Reach spin soft s
      → soft.is_scheduled s.gs_bottom_half ≡ false
      → ((i : ℕ) → s.pc i ≡ idle)
      → last_pick s.counters.picks ≡ s.counters.gs_pending_seq
  last_pick_covered r unscheduled all_idle = elim (Reach-Covered r) [
    | picked e ↦ e
    | waits e ↦ absurd cc
    | on_way j e ↦ absurd (let at = all_idle j in let late = rw at at e in cc)
  ]
