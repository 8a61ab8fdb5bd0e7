-- ===== src/Lib.antt =====
-- A model of the kernel module samples, and the proofs that they use the kernel as its interfaces
-- ask.
--
-- The samples are single-file modules. Each registers callbacks with the kernel in its `module_init`,
-- undoes that in its `module_exit`, and logs from the callbacks in which context they run.
--
-- Parts and files:
-- - Base: names of the libraries, Boolean tests, C's `int` (Base/Int).
-- - Kernel: the kernel as a parameter. A sample is a program over its file-scope variables and a
--   trace of calls; what a call returns, and which callbacks run before it returns, is whatever the
--   parameter answers, given all that went before. Kernel/Contract is what the interfaces ask of a
--   caller, as a check of a trace: an acquisition is released once, in reverse order; a call is made
--   while what it needs is held; no call that may sleep is made in hardirq or softirq context or
--   under a spinlock. A trace in which only `msleep` does so is told apart from one that breaks the
--   contract otherwise (Kernel/Contract/Strict). Kernel/Hoare composes postconditions.
-- - Sample: `insmod`, `rmmod` and callbacks as actions of a history. A callback belongs to a kind of
--   registration (an irq, a tasklet, a timer, ...). While one of that kind is in force, the kernel
--   may run the callback at each call of `init` and `exit`, any number of times. Sample/Blame says
--   which of the calls of a trace is to blame for the result of a load. Sample/Contract is the
--   interface that each sample's proofs fill, and what follows for every history; Sample/Interrupts
--   is what the callbacks leave alone, and Sample/Tracking what relates the variables to the trace,
--   in every history (Sample/Tracking/Histories).
-- - Hardirq: interrupts/hardirq/ (hardirq.c, irq_none.c, disable_irq.c). Deferred:
--   interrupts/deferred/. Danger: interrupts/danger/. One file per source file: `Globals` is its
--   file-scope variables, each function keeps its name, and a `goto` label is a function that falls
--   through to the next label; a long `module_init` goes on in a function of its own, which says from
--   which call on. The child Lifecycle holds the proofs of a sample; Keeps, where there is
--   one, is about the callbacks, in Danger among them the stores that debugfs makes to
--   `danger_enabled` (Danger/Writes), and Danger/*/Armed says when the danger is real.
-- - Hardirq/DisableIrq: Pending states what the interrupt core documents of a pending interrupt,
--   Deliver and Runs say what the handler leaves, however often it runs, Owed what it still has to
--   run for, and Merge is about the whole load.
-- - Concurrency/Competition: interrupts/concurrency/interrupt_competition.c, whose halves run on all
--   CPUs at once. A step is one access to one counter, one lock operation, or the start or the end of
--   a handler; any number of activations interleave. The spinlock and the scheduling of the tasklet
--   are parameters. Invariant, Counting, Picks, Covered, Serial and Progress hold the proofs;
--   Cpus allows those interleavings only that CPUs with interrupts off in the critical sections can
--   run, and Progress is about them; Serial compares the interleavings with the halves of Raisers, each run in one piece.
--   Concurrency/Raisers is the same source file as a module: load, unload, the raiser thread of each
--   CPU, and the halves as callbacks.
-- - Deferred/TimerSoftirq: Ticking is about the timer that re-arms itself.
-- - Deferred/NetRxSoftirq: a packet is given by what `ip_hdr` and `skb_header_pointer` return for it;
--   Capture is about sequences of packets. Parallel is the hook on all CPUs at once, one atomic
--   operation after the other; its Sampling is about the packets that are captured, its Alone about
--   one CPU that no other disturbs.
-- - Smp/PercpuParallel: smp/percpu/percpu_parallel.c, on any number of CPUs; OwnCounter is about
--   the counters, Histories about them in every history.
-- - DataStructure/ContainerOf: data_structure/container_of.c. The offsets that the compiler chooses
--   and the macro `container_of` are parameters; a load is the list of the lines that it logs.
-- - DataStructure/UserList: data_structure/list.c. Memory is a heap with faults; `list_head`, the
--   allocator and the random numbers are parameters with laws. Users and Init translate the
--   functions, Buffer is a `char` array with its NUL, Spec is the view as a sequence of users, Rep
--   relates the two, Links says where the links are touched without a fault, and the other files prove one part each: Lookup, Free, Building and Build
--   (adding users), Names, Cart, Listing, Log and Silent (what is logged, and what logs nothing),
--   Effects, Pointed and Update, Survivors and Load (a load and an unload).
-- - Loads: what each `module_init` returns, with Sample/Errors and Sample/Blame.
-- - Tests: concrete parameters and the theorems at concrete inputs.
--
-- Bounds and fuel: loops with a fixed number of rounds are recursions on the rounds that are left.
-- The loop of `free_all_user_infos` is given as many rounds as the list has entries, which is enough.
-- Decimal numbers have ten digits of fuel, which a 32-bit number does not exceed. Counters wrap at
-- their width, written `% 2 ^ w`. The number of CPUs and the packets are arguments.
--
-- Abstractions: `char username[32]` is its bytes, and `strcmp`, `scnprintf` and `%s` walk it up to
-- the NUL (DataStructure/UserList/Buffer); any other text is its bytes without the NUL. An `ERR_PTR`
-- is a negative number; a function pointer is the name of the function; of the flags of
-- `alloc_workqueue` only `WQ_BH` is kept, and of those of `request_threaded_irq` none (IRQF_ONESHOT).
-- A callback that interrupts a call runs in one piece; only in Concurrency/Competition and
-- Deferred/NetRxSoftirq/Parallel do they interleave access by access. Not modelled: the kernel
-- itself, which is a parameter; the includes, module macros and metadata, and the static tables that
-- hand a callback to the kernel, which have no behaviour of their own; the build files and scripts,
-- which are no part of a module.
pub mod Base
pub mod Kernel
pub mod Sample
pub mod Hardirq
pub mod Deferred
pub mod Danger
pub mod DataStructure
pub mod Concurrency
pub mod Loads
pub mod Tests
pub mod Smp
