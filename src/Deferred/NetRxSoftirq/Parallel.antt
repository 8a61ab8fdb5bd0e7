-- ===== src/Deferred/NetRxSoftirq/Parallel.antt =====
-- The hook of interrupts/deferred/net_rx_softirq.c on several CPUs at once: a step is one atomic
-- operation on a counter, or the line of the log, of the hook on one CPU; the steps interleave.
pub mod Sampling
pub mod Alone
use linux_kernel_samples.Base.{
  ℕ, zero, suc, ◌+◌, ◌%◌, not, Option, none, some, List, [], ◌∷◌, ◌++◌, ◌==◌, if◌then◌else◌,
}
use linux_kernel_samples.Deferred.NetRxSoftirq.{
  sample_every, Globals, Iphdr, Tcphdr, SkBuff, ipproto_tcp, inc_seen, inc_captured, initial,
}

-- Where the hook of one CPU is: outside, or past `atomic_long_fetch_inc` with the number `n`, or past
-- `atomic_long_inc` and about to log it.
pub data Place : Type 0 where
  outside : Place
  numbered : ℕ → SkBuff → Place
  captured : ℕ → Place

-- The variables, and what has happened so far: how many packets have got a number, which numbers are
-- logged, and which had no header that could be read.
pub record Traffic : Type 0 where
  pub g : Globals
  pub packets : ℕ
  pub logged : List ℕ
  pub missed : List ℕ

pub record OneCpu : Type 0 where
  pub traffic : Traffic
  pub pc : Place

abbrev at_pc : Place → Traffic → OneCpu
at_pc p s = record { traffic = s; pc = p }

-- From the result of `ip_hdr` to the number of the packet.
unfoldable pub number : SkBuff → Option Iphdr → Traffic → OneCpu
number skb none s = at_pc outside s
number skb (some iph) s =
    if not (iph.protocol == ipproto_tcp)
    then at_pc outside s
    else at_pc (numbered s.g.gs_seen_count skb)
        (record s { g = inc_seen s.g; packets = s.packets + 1 })

-- The result of `skb_header_pointer` for packet number `n`.
unfoldable pub take_header : ℕ → Option Tcphdr → Traffic → OneCpu
take_header n none s = at_pc outside (record s { missed = n ∷ s.missed })
take_header n (some tcph) s = at_pc (captured n) (record s { g = inc_captured s.g })

-- The next step of the hook of a CPU, which outside of the hook gets the packet `skb`.
unfoldable pub hook_step : Option SkBuff → Place → Traffic → OneCpu
unfolding number take_header
hook_step none outside s = at_pc outside s
hook_step (some skb) outside s = number skb skb.ip_hdr s
hook_step next (numbered n skb) s =
    if not (n % sample_every == 0) then at_pc outside s else take_header n skb.skb_header_pointer s
hook_step next (captured n) s = at_pc outside (record s { logged = n ∷ s.logged })

pub record System : Type 0 where
  pub traffic : Traffic
  pub cpus : List Place

abbrev pub system : Traffic → List Place → System
system s cs = record { traffic = s; cpus = cs }

abbrev pub quiet_start : Traffic
quiet_start = record { g = initial; packets = 0; logged = []; missed = [] }

abbrev pub all_outside : ℕ → List Place
all_outside zero = []
all_outside (suc n) = outside ∷ all_outside n

-- One step of the CPU between the others.
pub data Turn : System → System → Type 0 where
  turn :
      (left right : List Place) (p : Place) (next : Option SkBuff) (s : Traffic)
      → Turn
          (system s (left ++ p ∷ right))
          (system (hook_step next p s).traffic (left ++ (hook_step next p s).pc ∷ right))

-- From a load on, with any number of CPUs.
pub data Reach : System → Type 0 where
  loaded : (n_cpus : ℕ) → Reach (system quiet_start (all_outside n_cpus))
  later : {s t : System} → Reach s → Turn s t → Reach t
