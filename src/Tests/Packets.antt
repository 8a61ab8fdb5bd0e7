-- ===== src/Tests/Packets.antt =====
-- Packets, one after the other, and on two CPUs at once.
use linux_kernel_samples.Base.{ℕ, ◌≡◌, true, Option, none, some, List, [], ◌∷◌, refl, arith, pos}
use linux_kernel_samples.Kernel.{quiet, Returns}
use linux_kernel_samples.Tests.Machine.{machine}
use linux_kernel_samples.Deferred.NetRxSoftirq
use linux_kernel_samples.Deferred.NetRxSoftirq.{SkBuff, net_rx_softirq_hook}
use linux_kernel_samples.Deferred.NetRxSoftirq.Capture.{receive, OneInSixteen, receive-OneInSixteen}
use linux_kernel_samples.Deferred.NetRxSoftirq.Parallel.{
  outside, OneCpu, number, take_header, hook_step, system, quiet_start, turn, Reach, loaded, later,
}
use linux_kernel_samples.Deferred.NetRxSoftirq.Parallel.Sampling.{times, Reach-Sampled}
use linux_kernel_samples.Deferred.NetRxSoftirq.Parallel.Alone.{alone, net_rx_softirq_hook-alone}

-- Two TCP packets, and one of another protocol between them.
abbrev pub packet : ℕ → Option SkBuff
packet protocol = some (record {
  ip_hdr = some (record { protocol = protocol; saddr = 1; daddr = 2 });
  skb_header_pointer = some (record { source = 80; dest = 8080 });
})

abbrev pub packets : List (Option SkBuff)
packets = packet 6 ∷ packet 17 ∷ packet 6 ∷ []

abbrev none_seen : NetRxSoftirq.Globals
none_seen = record { gs_seen_count = 0; gs_captured_count = 0 }

receive-OneInSixteen_example :
    Returns
      (λ accepted g' t'. (accepted ≡ true) × (g'.gs_seen_count ≡ 2) × OneInSixteen g')
      (receive packets (quiet machine) none_seen [])
receive-OneInSixteen_example =
    receive-OneInSixteen machine packets none_seen [] refl (omega arith) (omega arith, omega arith)

-- Both CPUs get a packet, and then the first one captures and logs its own.
abbrev first_in : OneCpu
first_in = hook_step (packet 6) outside quiet_start

abbrev second_in : OneCpu
second_in = hook_step (packet 6) outside first_in.traffic

abbrev first_takes : OneCpu
first_takes = hook_step none first_in.pc second_in.traffic

abbrev first_logs : OneCpu
first_logs = hook_step none first_takes.pc first_takes.traffic

both_got : Reach (system first_logs.traffic (first_logs.pc ∷ second_in.pc ∷ []))
both_got =
    later
      (later
        (later (later (loaded 2) (turn [] (outside ∷ []) outside (packet 6) quiet_start))
          (turn (first_in.pc ∷ []) [] outside (packet 6) first_in.traffic))
        (turn [] (second_in.pc ∷ []) first_in.pc none second_in.traffic))
      (turn [] (second_in.pc ∷ []) first_takes.pc none first_takes.traffic)

Reach-Sampled_example :
    (first_logs.traffic.g.gs_seen_count ≡ 2)
    × (first_logs.traffic.g.gs_captured_count ≡ 1)
    × (times 0 first_logs.traffic.logged ≡ 1)
unfolding hook_step number take_header
Reach-Sampled_example = Reach-Sampled 0 both_got (omega arith)

net_rx_softirq_hook-alone_example :
    Returns
      (λ verdict g' t'.
        (verdict ≡ pos 1)
        × (g' ≡ record { gs_seen_count = 1; gs_captured_count = 1 })
        × ((alone (packet 6) quiet_start).traffic.g
            ≡ record { gs_seen_count = 1; gs_captured_count = 1 })
        × ((alone (packet 6) quiet_start).traffic.logged ≡ 0 ∷ [])
        × ((alone (packet 6) quiet_start).pc ≡ outside))
      (net_rx_softirq_hook true (packet 6) (quiet machine) quiet_start.g [])
net_rx_softirq_hook-alone_example = net_rx_softirq_hook-alone true (packet 6) machine quiet_start []
