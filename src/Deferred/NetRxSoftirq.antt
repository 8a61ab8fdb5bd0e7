-- ===== src/Deferred/NetRxSoftirq.antt =====
-- interrupts/deferred/net_rx_softirq.c: a netfilter hook that samples TCP packets, in softirq context.
pub mod Lifecycle
pub mod Capture
pub mod Parallel
use linux_kernel_samples.Base.{
  ℕ, ◌+◌, ◌%◌, ◌^◌, Bool, true, false, not, ◌||◌, Option, none, some, List, [], ◌∷◌, ℤ, pos,
  is_zero, ◌==◌, if◌then◌else◌,
}
use linux_kernel_samples.Kernel.{
  Call, Context, softirq, process, info, M, out, pure, ◌>>=◌, ◌>>◌, invoke, perform, printk,
  pr_info, pr_context, get, modify,
}
use linux_kernel_samples.Kernel.Contract.{Resource, net_hooks}
use linux_kernel_samples.Sample.{Callback, discard, Sample}

abbrev pub sample_every : ℕ
sample_every = 16

-- NF_ACCEPT
abbrev pub nf_accept : ℤ
nf_accept = pos 1

-- IPPROTO_TCP
abbrev pub ipproto_tcp : ℕ
ipproto_tcp = 6

-- `atomic_long_t`, as the unsigned number of its 64 bits.
pub record Globals : Type 0 where
  pub gs_seen_count : ℕ
  pub gs_captured_count : ℕ

pub record Iphdr : Type 0 where
  pub protocol : ℕ
  pub saddr : ℕ
  pub daddr : ℕ

pub record Tcphdr : Type 0 where
  pub source : ℕ
  pub dest : ℕ

-- A packet, as what `ip_hdr` and `skb_header_pointer` return for it; `none` is NULL. The ports are as
-- `ntohs` gives them.
pub record SkBuff : Type 0 where
  pub ip_hdr : Option Iphdr
  pub skb_header_pointer : Option Tcphdr

-- `x ? "Y" : "N"`, as the code of the character.
abbrev pub yes_no : Bool → ℤ
yes_no b = if b then pos 89 else pos 78

-- The flags of the context that the line shows. `in_serving_softirq` is a parameter of the hook.
abbrev pub context_flags : Bool → M Globals (List ℤ)
context_flags in_serving_softirq k g t =
    out
      (yes_no (k.kernel.in_hardirq t)
        ∷ yes_no (k.kernel.in_softirq t)
        ∷ yes_no in_serving_softirq
        ∷ yes_no (k.kernel.in_task t)
        ∷ [])
      g t

-- `atomic_long_inc(&gs_captured_count)`
abbrev pub inc_captured : Globals → Globals
inc_captured g = record g { gs_captured_count = (g.gs_captured_count + 1) % 2 ^ 64 }

-- `atomic_long_fetch_inc(&gs_seen_count)`
abbrev pub inc_seen : Globals → Globals
inc_seen g = record g { gs_seen_count = (g.gs_seen_count + 1) % 2 ^ 64 }

-- From the result of `skb_header_pointer` on, for packet number `n`.
pub capture : Bool → ℕ → Iphdr → Option Tcphdr → M Globals ℤ
capture serving n iph none = pure nf_accept
capture serving n iph (some tcph) = do
  modify inc_captured
  cpu ← invoke Call.smp_processor_id
  flags ← context_flags serving
  printk info
      "CPU#%u captured #%lu: %pI4:%u -> %pI4:%u  in_hardirq=%s in_softirq=%s in_serving_softirq=%s in_task=%s"
      (cpu ∷ pos n ∷ pos iph.saddr ∷ pos tcph.source ∷ pos iph.daddr ∷ pos tcph.dest ∷ flags)
  pure nf_accept

-- From the result of `ip_hdr` on.
pub inspect : Bool → SkBuff → Option Iphdr → M Globals ℤ
unfolding capture
inspect serving skb none = pure nf_accept
inspect serving skb (some iph) = if not (iph.protocol == ipproto_tcp) then pure nf_accept else do
  g ← get
  let n : ℕ = g.gs_seen_count
  modify inc_seen
  if not (n % sample_every == 0)
      then pure nf_accept
      else capture serving n iph skb.skb_header_pointer

-- `none` is a null `skb`.
pub net_rx_softirq_hook : Bool → Option SkBuff → M Globals ℤ
unfolding inspect
net_rx_softirq_hook serving none = pure nf_accept
net_rx_softirq_hook serving (some skb) = inspect serving skb skb.ip_hdr

pub net_rx_softirq_module_init : M Globals ℤ
net_rx_softirq_module_init = do
  pr_context "init"
  ret ← invoke (Call.nf_register_net_hook "net_rx_softirq_hook")
  if is_zero ret
      then (printk info
            "loaded; LOCAL_IN hook logs every %u-th TCP packet, always NF_ACCEPT (observe-only)"
            (pos sample_every ∷ [])
          >> pure ret)
      else pure ret

pub net_rx_softirq_module_exit : M Globals (Unit {0})
net_rx_softirq_module_exit = do
  pr_context "exit"
  perform Call.nf_unregister_net_hook
  g ← get
  printk info "unloaded; gs_seen_count=%lu gs_captured_count=%lu"
      (pos g.gs_seen_count ∷ pos g.gs_captured_count ∷ [])

-- What the loaded module holds, the newest first.
abbrev pub held : Globals → List Resource
held g = Resource.net_hook ∷ []

-- The hook on each packet that may arrive.
abbrev pub hooks : List (Option SkBuff) → List (Callback Globals)
hooks [] = []
hooks (skb ∷ skbs) =
    record { context = softirq; source = net_hooks; body = discard (net_rx_softirq_hook true skb) }
    ∷ hooks skbs

abbrev pub initial : Globals
initial = record { gs_seen_count = 0; gs_captured_count = 0 }

-- `module_init`, `module_exit` and the hook, on any packets.
abbrev pub net_rx_softirq_sample : List (Option SkBuff) → Sample Globals
net_rx_softirq_sample skbs = record {
  initial = initial;
  init = net_rx_softirq_module_init;
  exit = net_rx_softirq_module_exit;
  callbacks = hooks skbs;
  interrupts = hooks skbs;
  held = held;
}
