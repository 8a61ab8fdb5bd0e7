-- ===== src/Kernel/Contract.antt =====
-- What the interfaces that the samples call ask of a caller, as a check of a trace: resources are
-- released in the reverse order of their acquisition, each call is made while what it needs is held,
-- and no call that may sleep is made in atomic context, which holding a spinlock is. A trace in which
-- `msleep` alone breaks the last rule is told apart from one that breaks the contract otherwise.
pub mod Strict
use linux_kernel_samples.Base.{
  Bool, true, false, not, ◌&&◌, ◌||◌, Option, none, some, List, [], ◌∷◌, ℤ, is_zero, is_err,
  same_int, if◌then◌else◌,
}
use linux_kernel_samples.Kernel.{
  gfp_atomic, Call, Context, hardirq, softirq, process, Event, call, log, context_line, enter,
  leave, Trace,
}

pub data Resource : Type 0 where
  domain : ℤ → Resource
  mapping : ℤ → Resource
  irq : ℤ → Resource
  masked : ℤ → Resource  -- between `disable_irq` and `enable_irq`
  tasklet : Resource
  workqueue : ℤ → Resource
  hotplug_threads : Resource
  debugfs : ℤ → Resource
  buffer : ℤ → Resource
  spinlock : Resource
  timer : Resource
  net_hook : Resource

abbrev pub same : Resource → Resource → Bool
same (domain a) (domain b) = same_int a b
same (mapping a) (mapping b) = same_int a b
same (irq a) (irq b) = same_int a b
same (masked a) (masked b) = same_int a b
same tasklet tasklet = true
same (workqueue a) (workqueue b) = same_int a b
same hotplug_threads hotplug_threads = true
same (debugfs a) (debugfs b) = same_int a b
same (buffer a) (buffer b) = same_int a b
same spinlock spinlock = true
same timer timer = true
same net_hook net_hook = true
same _ _ = false

-- The kinds of registration that a callback hangs on.
pub data Source : Type 0 where
  irq_line tasklets works threads_of debugfs_files timers net_hooks : Source

abbrev pub is_source : Source → Resource → Bool
is_source irq_line (irq a) = true
is_source tasklets tasklet = true
is_source works (workqueue a) = true
is_source threads_of hotplug_threads = true
is_source debugfs_files (debugfs a) = true
is_source timers timer = true
is_source net_hooks net_hook = true
is_source _ _ = false

abbrev pub holds : Resource → List Resource → Bool
holds r [] = false
holds r (x ∷ xs) = same r x || holds r xs

pub data Effect : Type 0 where
  keep : Effect
  acquire : Resource → Effect
  release : Resource → Effect
  take_lock : Effect

abbrev pub acquire_unless : Bool → Resource → Effect
acquire_unless b r = if b then keep else acquire r

-- What a call with this result does to the resources held.
abbrev pub effect : Call → ℤ → Effect
effect (Call.irq_domain_create_sim n) v = acquire_unless (is_err v) (domain v)
effect (Call.irq_domain_remove_sim d) v = release (domain d)
effect (Call.irq_create_mapping d n) v = acquire_unless (is_zero v) (mapping v)
effect (Call.irq_dispose_mapping q) v = release (mapping q)
effect (Call.request_irq q f n) v = acquire_unless (not (is_zero v)) (irq q)
effect (Call.request_threaded_irq q f g n) v = acquire_unless (not (is_zero v)) (irq q)
effect (Call.free_irq q) v = release (irq q)
effect (Call.disable_irq q) v = acquire (masked q)
effect (Call.enable_irq q) v = release (masked q)
effect (Call.raise_irq q) v = keep
effect (Call.tasklet_setup f) v = acquire tasklet
effect Call.tasklet_schedule v = keep
effect Call.tasklet_kill v = release tasklet
effect (Call.alloc_workqueue n b) v = acquire_unless (is_zero v) (workqueue v)
effect (Call.queue_work w f) v = keep
effect (Call.destroy_workqueue w) v = release (workqueue w)
effect (Call.smpboot_register n) v = acquire_unless (not (is_zero v)) hotplug_threads
effect Call.smpboot_unregister v = release hotplug_threads
effect (Call.debugfs_create_dir n) v = acquire_unless (is_err v) (debugfs v)
effect (Call.debugfs_create_bool n d) v = keep
effect (Call.debugfs_create_file n d) v = keep
effect (Call.debugfs_remove d) v = release (debugfs d)
effect (Call.kmalloc n f) v = acquire_unless (is_zero v) (buffer v)
effect (Call.kfree p) v = release (buffer p)
effect (Call.msleep n) v = keep
effect (Call.schedule_timeout_interruptible j) v = keep
effect (Call.msecs_to_jiffies n) v = keep
effect Call.smp_processor_id v = keep
effect Call.spin_lock_irqsave v = take_lock
effect Call.spin_unlock_irqrestore v = release spinlock
effect (Call.timer_setup f) v = acquire timer
effect Call.read_jiffies v = keep
effect (Call.mod_timer n) v = keep
effect Call.timer_shutdown_sync v = release timer
effect (Call.nf_register_net_hook f) v = acquire_unless (not (is_zero v)) net_hook
effect Call.nf_unregister_net_hook v = release net_hook

-- What must be held for the call to be allowed, besides what it releases.
abbrev pub needs : Call → Option Resource
needs (Call.irq_create_mapping d n) = some (domain d)
needs (Call.request_irq q f n) = some (mapping q)
needs (Call.request_threaded_irq q f g n) = some (mapping q)
needs (Call.disable_irq q) = some (irq q)
needs (Call.raise_irq q) = some (irq q)
needs Call.tasklet_schedule = some tasklet
needs (Call.queue_work w f) = some (workqueue w)
needs (Call.mod_timer n) = some timer
needs (Call.debugfs_create_bool n d) = some (debugfs d)
needs (Call.debugfs_create_file n d) = some (debugfs d)
needs _ = none

-- The calls that may sleep, which only process context allows.
abbrev pub may_sleep : Call → Bool
may_sleep (Call.raise_irq q) = false
may_sleep (Call.enable_irq q) = false
may_sleep (Call.tasklet_setup f) = false
may_sleep Call.tasklet_schedule = false
may_sleep (Call.queue_work w f) = false
may_sleep (Call.kmalloc n gfp_atomic) = false
may_sleep (Call.kfree p) = false
may_sleep (Call.msecs_to_jiffies n) = false
may_sleep Call.smp_processor_id = false
may_sleep Call.spin_lock_irqsave = false
may_sleep Call.spin_unlock_irqrestore = false
may_sleep (Call.timer_setup f) = false
may_sleep Call.read_jiffies = false
may_sleep (Call.mod_timer n) = false
may_sleep _ = true

pub record Ledger : Type 0 where
  pub contexts : List Context  -- the callbacks that are running, the innermost first
  pub held : List Resource  -- the newest first
  pub slept : Bool  -- `msleep` was called in atomic context

abbrev pub ledger_with : List Context → List Resource → Bool → Ledger
ledger_with cs rs s = record { contexts = cs; held = rs; slept = s }

-- Of a trace that keeps the contract.
abbrev pub ledger_of : List Context → List Resource → Ledger
ledger_of cs rs = ledger_with cs rs false

abbrev pub is_atomic : List Context → Bool
is_atomic [] = false
is_atomic (process ∷ cs) = is_atomic cs
is_atomic (hardirq ∷ cs) = true
is_atomic (softirq ∷ cs) = true

-- No callback is running.
abbrev pub is_outermost : List Context → Bool
is_outermost [] = true
is_outermost (c ∷ cs) = false

abbrev pub is_met : Option Resource → List Resource → Bool
is_met none held = true
is_met (some r) held = holds r held

-- A release must be of the newest resource, and a spinlock is not taken twice.
abbrev pub pop_held : Resource → List Resource → Option (List Resource)
pop_held r [] = none
pop_held r (x ∷ xs) = if same r x then some xs else none

abbrev pub apply : Effect → List Resource → Option (List Resource)
apply keep held = some held
apply (acquire r) held = some (r ∷ held)
apply (release r) held = pop_held r held
apply take_lock held = if holds spinlock held then none else some (spinlock ∷ held)

abbrev pub with_held : List Context → Bool → Option (List Resource) → Option Ledger
with_held cs s none = none
with_held cs s (some rs) = some (ledger_with cs rs s)

abbrev pub is_msleep : Call → Bool
is_msleep (Call.msleep n) = true
is_msleep _ = false

abbrev pub sleeps_in : List Context → List Resource → Call → Bool
sleeps_in cs held c = may_sleep c && (is_atomic cs || holds spinlock held)

abbrev pub permit_in : List Context → List Resource → Bool → Event → Option Ledger
permit_in cs held s (call c v) =
    if (sleeps_in cs held c && not (is_msleep c)) || not (is_met (needs c) held)
    then none
    else with_held cs (s || (sleeps_in cs held c && is_msleep c)) (apply (effect c v) held)
permit_in cs held s (log l m args) = with_held cs s (some held)
permit_in cs held s (context_line m a b c) = with_held cs s (some held)
permit_in cs held s (enter c) = with_held (c ∷ cs) s (some held)
permit_in [] held s leave = none
permit_in (c ∷ cs) held s leave = with_held cs s (some held)

abbrev pub permit : Event → Option Ledger → Option Ledger
permit e none = none
permit e (some l) = permit_in l.contexts l.held l.slept e

-- `none`: some event of the trace breaks the contract, and is not `msleep` in atomic context.
abbrev pub ledger : Trace → Option Ledger
ledger [] = some (ledger_of [] [])
ledger (e ∷ t) = permit e (ledger t)
