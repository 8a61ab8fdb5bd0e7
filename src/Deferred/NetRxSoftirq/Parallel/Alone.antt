-- ===== src/Deferred/NetRxSoftirq/Parallel/Alone.antt =====
-- The steps of a CPU that no other one disturbs are the hook as the module has it.
use linux_kernel_samples.Base.{
  ℕ, ◌+◌, ◌%◌, ◌==◌, ◌≡◌, refl, Bool, true, false, ◌&&◌, Option, none, some, List, ◌∷◌, pos, arith,
  if◌then◌else◌,
}
use linux_kernel_samples.Kernel.{Trace, Kernel, quiet, Returns}
use linux_kernel_samples.Deferred.NetRxSoftirq.{Globals, Iphdr, Tcphdr, SkBuff, net_rx_softirq_hook}
use linux_kernel_samples.Deferred.NetRxSoftirq.Parallel.{outside, Traffic, OneCpu, hook_step}

abbrev pub step_again : OneCpu → OneCpu
step_again o = hook_step none o.pc o.traffic

-- The steps from getting the packet to the end of the hook, which are three at most.
abbrev pub alone : Option SkBuff → Traffic → OneCpu
alone skb s = step_again (step_again (hook_step skb outside s))

abbrev is_read : Option Tcphdr → Bool
is_read none = false
is_read (some tcph) = true

-- The protocol number 6 is that of TCP.
abbrev is_six : Option Iphdr → Bool
is_six none = false
is_six (some iph) = iph.protocol == 6

abbrev is_counted : Option SkBuff → Bool
is_counted none = false
is_counted (some skb) = is_six skb.ip_hdr

abbrev header_of : Option SkBuff → Option Tcphdr
header_of none = none
header_of (some skb) = skb.skb_header_pointer

-- Of the TCP packets, those whose number is a multiple of 16 are logged, if their header can be read.
abbrev is_logged : Option SkBuff → Globals → Bool
is_logged skb g = is_counted skb && (g.gs_seen_count % 16 == 0 && is_read (header_of skb))

-- What is to become of the counters.
abbrev pub expected : Option SkBuff → Globals → Globals
expected skb g = record {
  gs_seen_count =
      if is_counted skb then (g.gs_seen_count + 1) % 18446744073709551616 else g.gs_seen_count;
  gs_captured_count =
      if is_logged skb g
      then (g.gs_captured_count + 1) % 18446744073709551616
      else g.gs_captured_count;
}

-- And of the numbers that are logged.
abbrev pub expected_log : Option SkBuff → Globals → List ℕ → List ℕ
expected_log skb g logged = if is_logged skb g then g.gs_seen_count ∷ logged else logged

-- For any packet, and whatever the counters are: the hook of the module accepts the packet, and it and
-- the steps of one CPU, after which that is out of the hook, both leave the counters as they should be:
-- `gs_seen_count` is one more, modulo 2^64, if the packet is a TCP packet, and `gs_captured_count` if
-- moreover the number of the packet, the count before it, is a multiple of 16 and its header can be
-- read; the steps log that number then, and no other.
pub net_rx_softirq_hook-alone :
    (serving : Bool) (skb : Option SkBuff) (k : Kernel) (s : Traffic) (t : Trace)
    → Returns
        (λ verdict g' t'.
          (verdict ≡ pos 1)
          × (g' ≡ expected skb s.g)
          × ((alone skb s).traffic.g ≡ expected skb s.g)
          × ((alone skb s).traffic.logged ≡ expected_log skb s.g s.logged)
          × ((alone skb s).pc ≡ outside))
        (net_rx_softirq_hook serving skb (quiet k) s.g t)
unfolding net_rx_softirq_hook hook_step
net_rx_softirq_hook-alone serving none k s t = (refl, refl, refl, refl, refl)
net_rx_softirq_hook-alone serving (some skb) k s t = grind arith
