-- ===== src/Deferred/NetRxSoftirq/Capture.antt =====
-- What the hook counts over a sequence of packets.
use linux_kernel_samples.Base.{
  ℕ, ◌+◌, ◌*◌, ◌^◌, ◌<◌, ◌≤◌, ◌≡◌, refl, Bool, true, false, ◌&&◌, Option, none, some, List, [], ◌∷◌,
  same_int, arith, ◌==◌, if◌then◌else◌,
}
use linux_kernel_samples.Kernel.{Trace, Kernel, quiet, Returns, M, pure, ◌>>=◌}
use linux_kernel_samples.Kernel.Hoare.{bind}
use linux_kernel_samples.Deferred.NetRxSoftirq.{
  Globals, SkBuff, Iphdr, Tcphdr, nf_accept, ipproto_tcp, net_rx_softirq_hook,
}

abbrev pub is_tcp_header : Option Iphdr → Bool
is_tcp_header none = false
is_tcp_header (some iph) = iph.protocol == ipproto_tcp

-- The packets that the hook counts.
abbrev pub is_tcp : Option SkBuff → Bool
is_tcp none = false
is_tcp (some skb) = is_tcp_header skb.ip_hdr

abbrev pub has_header : Option Tcphdr → Bool
has_header none = false
has_header (some h) = true

-- The TCP header can be read.
abbrev pub is_readable : Option SkBuff → Bool
is_readable none = true
is_readable (some skb) = has_header skb.skb_header_pointer

abbrev pub all_readable : List (Option SkBuff) → Bool
all_readable [] = true
all_readable (skb ∷ skbs) = is_readable skb && all_readable skbs

abbrev pub count_tcp : List (Option SkBuff) → ℕ
count_tcp [] = 0
count_tcp (skb ∷ skbs) = (if is_tcp skb then 1 else 0) + count_tcp skbs

-- The packets in their order; every one is accepted.
pub receive : List (Option SkBuff) → M Globals Bool
receive [] = pure true
receive (skb ∷ skbs) = do
  verdict ← net_rx_softirq_hook true skb
  rest ← receive skbs
  pure (same_int verdict nf_accept && rest)

-- The packets 0, 16, 32, … of those seen have been captured.
abbrev pub OneInSixteen : Globals → Type 0
OneInSixteen g =
    (g.gs_seen_count ≤ 16 * g.gs_captured_count) × (16 * g.gs_captured_count < g.gs_seen_count + 16)

hook-OneInSixteen :
    (k : Kernel) (skb : Option SkBuff) (g : Globals) (t : Trace)
    → is_readable skb ≡ true
    → g.gs_seen_count + 1 < 2 ^ 60
    → OneInSixteen g
    → Returns
        (λ verdict g' t'.
          (verdict ≡ nf_accept)
          × (g'.gs_seen_count ≡ g.gs_seen_count + (if is_tcp skb then 1 else 0))
          × OneInSixteen g')
        (net_rx_softirq_hook true skb (quiet k) g t)
unfolding net_rx_softirq_hook
hook-OneInSixteen k skb g t readable small at = grind arith

-- From counts in this proportion, as after the load, with fewer than 2^60 packets seen, and where all
-- TCP headers can be read: the hook accepts every packet, counts the TCP ones, and keeps the captured
-- ones at one in sixteen of those seen, rounded up.
pub receive-OneInSixteen :
    (k : Kernel) (skbs : List (Option SkBuff)) (g : Globals) (t : Trace)
    → all_readable skbs ≡ true
    → g.gs_seen_count + count_tcp skbs + 1 < 2 ^ 60
    → OneInSixteen g
    → Returns
        (λ accepted g' t'.
          (accepted ≡ true)
          × (g'.gs_seen_count ≡ g.gs_seen_count + count_tcp skbs)
          × OneInSixteen g')
        (receive skbs (quiet k) g t)
unfolding receive
receive-OneInSixteen k [] g t readable small at = (refl, omega arith, at)
receive-OneInSixteen k (skb ∷ skbs) g t readable small at =
    bind
      (λ verdict g1 t1.
        (verdict ≡ nf_accept)
        × (g1.gs_seen_count ≡ g.gs_seen_count + (if is_tcp skb then 1 else 0))
        × OneInSixteen g1)
      (λ accepted g' t'.
        (accepted ≡ true)
        × (g'.gs_seen_count ≡ g.gs_seen_count + count_tcp (skb ∷ skbs))
        × OneInSixteen g')
      (net_rx_softirq_hook true skb (quiet k) g t) _
      (hook-OneInSixteen k skb g t (ground arith) (ground arith) at)
      λ verdict g1 t1 (yes_v, one, at1).
        bind
          (λ accepted g' t'.
            (accepted ≡ true)
            × (g'.gs_seen_count ≡ g1.gs_seen_count + count_tcp skbs)
            × OneInSixteen g')
          (λ accepted g' t'.
            (accepted ≡ true)
            × (g'.gs_seen_count ≡ g.gs_seen_count + count_tcp (skb ∷ skbs))
            × OneInSixteen g')
          (receive skbs (quiet k) g1 t1) _
          (receive-OneInSixteen k skbs g1 t1 (ground arith) (omega (arith, one, small)) at1)
          λ rest g2 t2 (ok, two, at2). (rw (yes_v, ok) refl, omega (arith, one, two), at2)
