-- ===== src/Sched.antt =====
-- The round-robin scheduler of kernel/core/scheduler: sched.c, sched.h, context.h, and timer.c.
-- A pointer to a task or a context is a number and 0 is NULL; the tasks live in a store.
pub mod Queue
pub mod Exchange
pub mod Switch
pub mod Tick
pub mod Start
pub mod Round
use kernel_fuzzing.Base.{
  ℕ, ◌+◌, ◌-◌, ◌*◌, ◌/◌, ◌^◌, bit_or, Bool, true, false, ◌&&◌, not, ltb, ◌==◌, if◌then◌else◌,
  update,
}

pub data TaskState : Type 0 where
  ready running blocked : TaskState

pub record Task : Type 0 where
  pub id : ℕ
  pub state : TaskState
  pub context : ℕ
  pub user_stack : ℕ
  pub kernel_stack : ℕ
  pub slice_left : ℕ
  pub name : ℕ
  pub next : ℕ

-- The general registers `x` are left alone by the code here.
pub record Context : Type 0 where
  pub sp_el0 : ℕ
  pub elr_el1 : ℕ
  pub spsr_el1 : ℕ
  pub ttbr0_el1 : ℕ

unfoldable pub spsr_el0t_default : ℕ
spsr_el0t_default = bit_or 0 (0 * 2 ^ 6)

unfoldable pub build_initial_context : Context → (entry user_stack : ℕ) → Context
build_initial_context ctx entry user_stack = record ctx {
  sp_el0 = user_stack;
  elr_el1 = entry;
  spsr_el1 = spsr_el0t_default;
}

-- The timer: the frequency that the hardware reports, the variable `cntfrq`, and the registers.
pub record Timer : Type 0 where
  pub cntfrq_el0 : ℕ
  pub cntfrq : ℕ
  pub cntv_tval_el0 : ℕ
  pub cntv_ctl_el0 : ℕ

unfoldable pub read_cntfrq : Timer → Timer
read_cntfrq t = record t { cntfrq = t.cntfrq_el0 }

unfoldable pub set_cntv : Timer → Timer
unfolding read_cntfrq
set_cntv t = let t' = read_cntfrq t in record t' { cntv_tval_el0 = t'.cntfrq / 10 }

unfoldable pub enable_cntv : Timer → Timer
enable_cntv t = record t { cntv_ctl_el0 = 1 }

unfoldable pub disable_cntv : Timer → Timer
disable_cntv t = record t { cntv_ctl_el0 = 0 }

unfoldable pub timer_init_1khz : Timer → Timer
unfolding set_cntv enable_cntv
timer_init_1khz t = enable_cntv (set_cntv (read_cntfrq t))

-- The static variables of sched.c, the store and the timer.
pub record Sched : Type 0 where
  pub tasks : ℕ → Task
  pub rq_head : ℕ
  pub rq_tail : ℕ
  pub current : ℕ
  pub timer : Timer

abbrev pub rr_slice_ticks : ℕ
rr_slice_ticks = 10

abbrev pub put : Sched → ℕ → Task → Sched
put s t task = record s { tasks = update s.tasks t task }

unfoldable pub rq_push : Sched → ℕ → Sched
rq_push s t = if s.rq_tail == 0 then record s { rq_head = t; rq_tail = t } else record s {
  tasks = update s.tasks s.rq_tail (record (s.tasks s.rq_tail) { next = t });
  rq_tail = t;
}

-- The result is the new head, not the task that is taken out.
unfoldable pub rq_pop : Sched → ℕ × Sched
rq_pop s =
    let t = s.rq_head in
    if t == 0
    then (0, s)
    else (let head = (s.tasks t).next in
        (
          head,
          record s {
            tasks = update s.tasks t (record (s.tasks t) { next = 0 });
            rq_head = head;
            rq_tail = if head == 0 then 0 else s.rq_tail;
          },
        ))

unfoldable pub sched_ready_enqueue : Sched → ℕ → Sched
sched_ready_enqueue s t =
    rq_push (put s t (record (s.tasks t) { state = ready; slice_left = rr_slice_ticks })) t

unfoldable pub sched_set_current : Sched → ℕ → Sched
sched_set_current s t = put (record s { current = t }) t (record (s.tasks t) { state = running })

abbrev pub is_running : TaskState → Bool
is_running running = true
is_running _ = false

-- The second half of `schedule_on_tick`, from `next = rq_pop()` on.
unfoldable pub switch_to_next : ℕ → Sched → ℕ × Sched
switch_to_next tf s =
    let (next, s') = rq_pop s in
    if next == 0
    then (if s'.current == 0 then tf else (s'.tasks s'.current).context, s')
    else (let s'' = put s' next (record (s'.tasks next) { state = running }) in
        ((s''.tasks next).context, record s'' { current = next; timer = set_cntv s''.timer }))

-- `--slice_left > 0` on an `int`: a slice of 0 counts down to -1 in C and stays 0 here; either way
-- the test fails and the slice is set anew.
unfoldable pub schedule_on_tick : ℕ → Sched → ℕ × Sched
schedule_on_tick tf s =
    let t = s.current in
    if not (t == 0) && is_running (s.tasks t).state
    then (let left = (s.tasks t).slice_left - 1 in
        if ltb 0 left
        then (tf, put s t (record (s.tasks t) { context = tf; slice_left = left }))
        else switch_to_next tf (
            rq_push
              (put s t
                (record (s.tasks t) { context = tf; slice_left = rr_slice_ticks; state = ready }))
              t))
    else switch_to_next tf s
