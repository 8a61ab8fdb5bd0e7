-- ===== src/Deferred/TimerSoftirq/Ticking.antt =====
-- The timer re-arms itself until it is shut down, and its ticks are counted.
use linux_kernel_samples.Base.{ℕ, ◌+◌, ◌%◌, ◌^◌, ◌≡◌, refl, Bool, true, false, List, [], ◌∷◌, arith}
use linux_kernel_samples.Kernel.{Call, call, enter, Trace, Kernel, Returns, Out, out}
use linux_kernel_samples.Sample.{
  Action, history, interrupted, run_due, callback_at, later_state, later_trace,
}
use linux_kernel_samples.Sample.Interrupts.{Holds}
use linux_kernel_samples.Sample.Tracking.{
  After, AllTrack, run_at-track, later-track, later_trace-idle,
}
use linux_kernel_samples.Sample.Tracking.Histories.{Tracked, phase_of, Tracks, history-track}
use linux_kernel_samples.Deferred.TimerSoftirq.{
  Globals, timer_softirq_bottom_half, timer_softirq_module_init, timer_softirq_module_exit, held,
  initial, callbacks, timer_softirq_sample,
}
use linux_kernel_samples.Deferred.TimerSoftirq.Lifecycle.{timer_softirq-obeys}

-- The runs of the callback since the timer was set up.
unfoldable pub ticks : Trace → ℕ
ticks [] = 0
ticks (call (Call.timer_setup f) v ∷ t) = 0
ticks (enter c ∷ t) = ticks t + 1
ticks (e ∷ t) = ticks t

-- The timer is to expire: `mod_timer` arms it, the kernel disarms it before it runs the callback.
unfoldable pub is_armed : Trace → Bool
is_armed [] = false
is_armed (call (Call.mod_timer expires) v ∷ t) = true
is_armed (call Call.timer_shutdown_sync v ∷ t) = false
is_armed (enter c ∷ t) = false
is_armed (e ∷ t) = is_armed t

abbrev pub Counted : Globals → Trace → Type 0
Counted g t = g.gs_tick_count ≡ ticks t % 2 ^ 64

abbrev pub Armed : Globals → Trace → Type 0
Armed g t = is_armed t ≡ true

callbacks-Counted : (k : Kernel) → AllTrack k Counted callbacks
unfolding timer_softirq_bottom_half ticks
callbacks-Counted k = ((λ g t counted. omega (arith, counted)), tt)

callbacks-Armed : (k : Kernel) → AllTrack k Armed callbacks
unfolding timer_softirq_bottom_half is_armed
callbacks-Armed k = ((λ g t armed. refl), tt)

module _ (k : Kernel) (g : Globals) (t : Trace) where
  later-Counted : Counted g t → Counted (later_state k callbacks g t) (later_trace k callbacks g t)
  later-Counted = later-track k Counted callbacks g t (callbacks-Counted k)

  later-Armed : Armed g t → is_armed (later_trace k callbacks g t) ≡ true
  later-Armed = later-track k Armed callbacks g t (callbacks-Armed k)

  later-idle : Holds [] [] t → later_trace k callbacks g t ≡ t
  later-idle h = later_trace-idle k g t h callbacks

-- The ticks are counted, and the next one will come.
abbrev pub Ticking : Globals → Trace → Type 0
Ticking g t = Counted g t × Armed g t

abbrev pub Stopped : Trace → Type 0
Stopped t = is_armed t ≡ false

init-Ticking :
    (k : Kernel) (t : Trace)
    → Returns
        (λ ret g' t'. Tracked Ticking Stopped (phase_of ret g') t')
        (timer_softirq_module_init (interrupted k callbacks) initial t)
unfolding timer_softirq_module_init ticks is_armed
init-Ticking k t =
    let fresh = later-Counted k initial _ refl in
    (later-Counted k _ _ (later-Counted k _ _ (later-Counted k _ _ fresh)), later-Armed k _ _ refl)

exit-Stopped :
    (k : Kernel) (g : Globals) (t : Trace)
    → Holds [] (held g) t
    → Returns (λ _ g' t'. Stopped t') (timer_softirq_module_exit (interrupted k callbacks) g t)
unfolding timer_softirq_module_exit is_armed
exit-Stopped k g t h = grind (arith, later-idle)

both-Ticking :
    (k : Kernel) (o : Out Globals (Unit {0}))
    → After k Counted o
    → After k Armed o
    → Returns (λ _ g' t'. Ticking g' t') o
both-Ticking k (out _ g t) counted armed = (counted, armed)

tracks : (k : Kernel) → Tracks k timer_softirq_sample Ticking Stopped
unfolding is_armed
tracks k = record {
  start = refl;
  init_tracks = λ t stopped. init-Ticking k t;
  exit_tracks = λ g t h ticking. exit-Stopped k g t h;
  callbacks_track = λ i g t (counted, armed).
      both-Ticking k (run_due k (callback_at callbacks i) g t)
        (run_at-track k Counted callbacks i g t (callbacks-Counted k) counted)
        (run_at-track k Armed callbacks i g t (callbacks-Armed k) armed);
  obeys = timer_softirq-obeys k;
}

-- Whatever the kernel answers, in whatever order `timer_softirq` is loaded, its callback runs and it is
-- unloaded, and however often the callback interrupts the calls of a load and of an unload: while the
-- module is loaded, `gs_tick_count` is the number of runs of the callback since the timer was set up,
-- modulo 2^64, and the timer is armed, so that the next tick comes; while the module is not loaded,
-- the timer is not armed.
pub timer_softirq-Ticking :
    (k : Kernel) (actions : List Action)
    → Tracked Ticking Stopped
        (history k timer_softirq_sample actions).phase
        (history k timer_softirq_sample actions).trace
timer_softirq-Ticking k = history-track k timer_softirq_sample Ticking Stopped (tracks k)
