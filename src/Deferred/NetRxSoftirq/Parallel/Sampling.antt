-- ===== src/Deferred/NetRxSoftirq/Parallel/Sampling.antt =====
-- However the hooks of the CPUs interleave, every sixteenth packet is sampled, once.
use linux_kernel_samples.Base.{
  ℕ, zero, suc, ◌+◌, ◌%◌, ◌^◌, ◌≤◌, ◌≡◌, refl, sym, ap, true, ◌&&◌, Bool-cases, inl, inr, Option,
  none, some, List, [], ◌∷◌, ◌++◌, arith, ltb, ◌==◌, if◌then◌else◌,
}
use linux_kernel_samples.Deferred.NetRxSoftirq.{sample_every, Iphdr, Tcphdr, SkBuff, ipproto_tcp}
use linux_kernel_samples.Deferred.NetRxSoftirq.Parallel.{
  Place, outside, numbered, captured, Traffic, OneCpu, number, take_header, hook_step, System,
  all_outside, Turn, turn, Reach, loaded, later,
}

-- How often a number is in the list.
abbrev pub times : ℕ → List ℕ → ℕ
times m [] = 0
times m (n ∷ ns) = (if n == m then 1 else 0) + times m ns

-- The hook of this CPU still has to sample the packet of this number.
abbrev pub due_at : ℕ → Place → ℕ
due_at m outside = 0
due_at m (numbered n skb) = if (n % sample_every == 0) && (n == m) then 1 else 0
due_at m (captured n) = if n == m then 1 else 0

abbrev pub due : ℕ → List Place → ℕ
due m [] = 0
due m (p ∷ ps) = due_at m p + due m ps

-- The hook of this CPU has counted a capture, and not yet logged it.
abbrev pub unlogged_at : Place → ℕ
unlogged_at outside = 0
unlogged_at (numbered n skb) = 0
unlogged_at (captured n) = 1

abbrev pub unlogged : List Place → ℕ
unlogged [] = 0
unlogged (p ∷ ps) = unlogged_at p + unlogged ps

abbrev pub length : List ℕ → ℕ
length [] = 0
length (n ∷ ns) = 1 + length ns

due-append : (m : ℕ) (left right : List Place) → due m (left ++ right) ≡ due m left + due m right
due-append m [] right = omega arith
due-append m (p ∷ left) right = omega (arith, due-append m left right)

unlogged-append :
    (left right : List Place) → unlogged (left ++ right) ≡ unlogged left + unlogged right
unlogged-append [] right = omega arith
unlogged-append (p ∷ left) right = omega (arith, unlogged-append left right)

-- The packets with a number that is a multiple of 16, as far as they have come.
abbrev pub sampled : ℕ → ℕ → ℕ
sampled packets m = if (m % sample_every == 0) && ltb m packets then 1 else 0

-- The packet that gets its number is the next one.
next-sampled :
    (n m : ℕ)
    → (if (n % sample_every == 0) && (n == m) then 1 else 0) + sampled n m ≡ sampled (n + 1) m
next-sampled n m = ground arith

record Inv (s : System) : Type 0 where
  seen : s.traffic.g.gs_seen_count ≡ s.traffic.packets % 2 ^ 64
  counted : s.traffic.g.gs_captured_count ≡ (length s.traffic.logged + unlogged s.cpus) % 2 ^ 64
  once :
      s.traffic.packets ≤ 2 ^ 64
      → (m : ℕ)
      → times m s.traffic.logged + times m s.traffic.missed + due m s.cpus
        ≡ sampled s.traffic.packets m

-- What a step does to the sums, whatever the other CPUs hold.
record Moved (s : Traffic) (p : Place) (t : OneCpu) : Type 0 where
  grows : s.packets ≤ t.traffic.packets
  seen :
      s.g.gs_seen_count ≡ s.packets % 2 ^ 64
      → t.traffic.g.gs_seen_count ≡ t.traffic.packets % 2 ^ 64
  counted :
      (rest : ℕ)
      → s.g.gs_captured_count ≡ (length s.logged + (unlogged_at p + rest)) % 2 ^ 64
      → t.traffic.g.gs_captured_count
        ≡ (length t.traffic.logged + (unlogged_at t.pc + rest)) % 2 ^ 64
  once :
      s.g.gs_seen_count ≡ s.packets % 2 ^ 64
      → t.traffic.packets ≤ 2 ^ 64
      → (m rest : ℕ)
      → times m s.logged + times m s.missed + (due_at m p + rest) ≡ sampled s.packets m
      → times m t.traffic.logged + times m t.traffic.missed + (due_at m t.pc + rest)
        ≡ sampled t.traffic.packets m

still :
    (s : Traffic) (p : Place)
    → (unlogged_at p ≡ 0)
    → ((m : ℕ) → due_at m p ≡ 0)
    → Moved s p (record { traffic = s; pc = outside })
still s p a d = record {
  grows = omega arith;
  seen = λ e. e;
  counted = λ rest e. rw e (ap (λ (x : ℕ). (length s.logged + (x + rest)) % 2 ^ 64) a);
  once = λ e le m rest h. omega (arith, h, d m);
}

number-Moved : (skb : SkBuff) (o : Option Iphdr) (s : Traffic) → Moved s outside (number skb o s)
unfolding number
number-Moved skb none s = still s outside refl (λ m. refl)
number-Moved skb (some iph) s = elim (Bool-cases (iph.protocol == ipproto_tcp)) [
  | inl tcp ↦ rw tcp (record {
    grows = omega arith;
    seen = λ e. omega (arith, e);
    counted = λ rest e. e;
    once = λ e le m rest h.
        let same : s.g.gs_seen_count ≡ s.packets = omega (arith, e, le) in
        rw same (omega (arith, h, next-sampled s.packets m));
  })
  | inr other ↦ rw other (still s outside refl (λ m. refl))
]

take_header-Moved :
    (n : ℕ) (skb : SkBuff) (o : Option Tcphdr) (s : Traffic)
    → (n % sample_every == 0) ≡ true
    → Moved s (numbered n skb) (take_header n o s)
unfolding take_header
take_header-Moved n skb none s e = record {
  grows = omega arith;
  seen = λ e. e;
  counted = λ rest e. e;
  once = λ same le m rest h. ground (arith, e, same);
}
take_header-Moved n skb (some tcph) s e = record {
  grows = omega arith;
  seen = λ e. e;
  counted = λ rest same. ground (arith, e, same);
  once = λ same le m rest h. ground (arith, e, same);
}

hook_step-Moved : (next : Option SkBuff) (p : Place) (s : Traffic) → Moved s p (hook_step next p s)
unfolding hook_step
hook_step-Moved none outside s = still s outside refl (λ m. refl)
hook_step-Moved (some skb) outside s = number-Moved skb skb.ip_hdr s
hook_step-Moved next (numbered n skb) s = elim (Bool-cases (n % sample_every == 0)) [
  | inl hit ↦ rw hit (take_header-Moved n skb skb.skb_header_pointer s hit)
  | inr miss ↦ rw miss (still s (numbered n skb) refl (λ m. ground (arith, miss)))
]
hook_step-Moved next (captured n) s = record {
  grows = omega arith;
  seen = λ e. e;
  counted = λ rest same. ground (arith, same);
  once = λ e le m rest h. ground (arith, h);
}

-- The sum of all CPUs, with the one that is on its turn first.
due-turn :
    (m : ℕ) (left right : List Place) (p : Place)
    → due m (left ++ p ∷ right) ≡ due_at m p + (due m left + due m right)
due-turn m left right p = omega (arith, due-append m left (p ∷ right))

unlogged-turn :
    (left right : List Place) (p : Place)
    → unlogged (left ++ p ∷ right) ≡ unlogged_at p + (unlogged left + unlogged right)
unlogged-turn left right p = omega (arith, unlogged-append left (p ∷ right))

Turn-Inv : {s t : System} → Turn s t → Inv s → Inv t
Turn-Inv (turn left right p next s) inv =
    let moved = hook_step-Moved next p s in
    let t = hook_step next p s in
    record {
      seen = moved.seen inv.seen;
      counted = rw (unlogged-turn left right t.pc) (
          moved.counted (unlogged left + unlogged right)
            (rw (sym (unlogged-turn left right p)) (inv.counted)));
      once = λ le m. rw (due-turn m left right t.pc) (
          moved.once inv.seen le m (due m left + due m right)
            (rw (sym (due-turn m left right p)) (inv.once (omega (arith, moved.grows, le)) m)));
    }

all_outside-due : (n m : ℕ) → due m (all_outside n) ≡ 0
all_outside-due zero m = refl
all_outside-due (suc n) m = omega (arith, all_outside-due n m)

all_outside-unlogged : (n : ℕ) → unlogged (all_outside n) ≡ 0
all_outside-unlogged zero = refl
all_outside-unlogged (suc n) = omega (arith, all_outside-unlogged n)

Reach-Inv : {s : System} → Reach s → Inv s
Reach-Inv (loaded n) = record {
  seen = refl;
  counted = rw (all_outside-unlogged n) refl;
  once = λ le m. rw (all_outside-due n m) (ground arith);
}
Reach-Inv (later r st) = Turn-Inv st (Reach-Inv r)

-- In every reachable state, on any number of CPUs, for any packets and any interleaving of their hooks,
-- as long as at most 2^64 packets have got a number: `gs_seen_count` counts these packets, and
-- `gs_captured_count` those that are logged or about to be, modulo 2^64. The packets 0, 16, 32, … of
-- them, and no others, are logged, or have no header that can be read, or are still in the hook, each
-- of them once.
pub Reach-Sampled :
    {s : System} (m : ℕ)
    → Reach s
    → s.traffic.packets ≤ 2 ^ 64
    → (s.traffic.g.gs_seen_count ≡ s.traffic.packets % 2 ^ 64)
      × (s.traffic.g.gs_captured_count ≡ (length s.traffic.logged + unlogged s.cpus) % 2 ^ 64)
      × (times m s.traffic.logged + times m s.traffic.missed + due m s.cpus
          ≡ sampled s.traffic.packets m)
Reach-Sampled m r le = let inv = Reach-Inv r in (inv.seen, inv.counted, inv.once le m)
