-- ===== src/Tests/Tasks.antt =====
-- The scheduler of kernel/core/scheduler with the two tasks of `kmain`.
use kernel_fuzzing.Base.{ℕ, ◌+◌, ◌*◌, ◌≡◌, ◌<◌, refl, List, [], ◌∷◌, arith, length, update}
use kernel_fuzzing.Sched.{
  rq_push, Sched, TaskState, schedule_on_tick, sched_set_current, sched_ready_enqueue, running,
}
use kernel_fuzzing.Sched.Queue.{Queued}
use kernel_fuzzing.Sched.Tick.{Switched, schedule_on_tick_expired}
use kernel_fuzzing.Sched.Round.{rots, Turn, ticks, schedule_round_robin, schedule_fair}
use kernel_fuzzing.Sched.Start.{enqueue_all, sched_start-Turn}

abbrev pub idle : Sched
idle = record {
  tasks = λ t. record {
    id = t;
    state = TaskState.blocked;
    context = 1000 + t;
    user_stack = 0;
    kernel_stack = 0;
    slice_left = 0;
    name = 0;
    next = 0;
  };
  rq_head = 0;
  rq_tail = 0;
  current = 0;
  timer = record { cntfrq_el0 = 62500000; cntfrq = 0; cntv_tval_el0 = 0; cntv_ctl_el0 = 0 };
}

abbrev pub two_tasks : List ℕ
two_tasks = 0x2000 ∷ (0x1000 ∷ [])

abbrev pub started : Sched
started = sched_set_current (enqueue_all idle two_tasks) 0x2000

started-Turn : Turn 10 started two_tasks
started-Turn =
    sched_start-Turn idle 0x2000 (0x1000 ∷ []) refl (refl, (refl, tt))
      ((λ e. ground arith), ((λ e. ground arith), tt))

-- Three ticks into the second slice.
schedule_round_robin_example :
    Turn 7 (ticks (λ i. i) 13 started) (0x1000 ∷ (0x2000 ∷ []))
    × (rots (length two_tasks) two_tasks ≡ two_tasks)
schedule_round_robin_example =
    schedule_round_robin (λ i. i) started two_tasks 1 3 6 started-Turn refl

schedule_fair_example :
    (k : ℕ) × (k < length two_tasks)
    × ((ticks (λ i. i) (k * 10) started).current ≡ 0x1000)
    × (((ticks (λ i. i) (k * 10) started).tasks 0x1000).state ≡ running)
schedule_fair_example = schedule_fair (λ i. i) started two_tasks 0x1000 started-Turn refl

abbrev pub last_tick : Sched
last_tick = record started {
  tasks = update started.tasks 0x2000 (record (started.tasks 0x2000) { slice_left = 1 });
}

pub last_tick-Queued : Queued last_tick 0x2000 (0x1000 ∷ [])
unfolding sched_set_current sched_ready_enqueue rq_push update
last_tick-Queued = record {
  head = refl;
  current = refl;
  linked = (refl, refl);
  distinct = (refl, (refl, tt));
  nonnull = ((λ e. ground arith), ((λ e. ground arith), tt));
  runs = refl;
  wait = (refl, tt);
  fresh = (refl, tt);
}

last_tick_slice : (last_tick.tasks 0x2000).slice_left ≡ 1
unfolding update
last_tick_slice = refl

schedule_on_tick_expired_example :
    Switched last_tick 0x2000 77 0x1000 (0x2000 ∷ []) (schedule_on_tick 77 last_tick)
schedule_on_tick_expired_example =
    schedule_on_tick_expired last_tick 0x2000 (0x1000 ∷ []) 77 last_tick-Queued
      (omega (arith, last_tick_slice))
