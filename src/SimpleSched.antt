-- ===== src/SimpleSched.antt =====
-- The kernel of kernel-simple-scheduler/: two user programs that take turns. core/sched.c and
-- core/kmain.c; its tasks, contexts and ready queue are those of kernel/, its timer and interrupt
-- controller those of kernel-interrupts/. What `gic_ack` reads is an argument; messages are left
-- out. A context of this kernel has no `ttbr0_el1`: the field is left alone.
pub mod Turns
pub mod Alternation
pub mod Started
use kernel_fuzzing.Base.{
  ℕ, ◌+◌, ◌-◌, ◌%◌, ◌^◌, Bool, true, false, ◌&&◌, not, ltb, ◌==◌, if◌then◌else◌, update,
}
use kernel_fuzzing.Sched.{
  Sched, Context, put, is_running, ready, running, rq_push, rq_pop, build_initial_context,
  sched_set_current,
}
use kernel_fuzzing.Uart.{Registers, uart_init}
use kernel_fuzzing.Irq.{Writes}
use kernel_fuzzing.Interrupts.{gic_init, gic_eoi, set_cntv, timer_init_1khz}

abbrev pub rr_slice_ticks : ℕ
rr_slice_ticks = 10000

-- What the kernel changes; the contexts by their addresses.
pub record Board : Type 0 where
  pub sched : Sched
  pub contexts : ℕ → Context
  pub gic : Writes
  pub uart : Registers
  pub irq_masked : Bool

unfoldable pub sched_ready_enqueue : Sched → ℕ → Sched
sched_ready_enqueue s t =
    rq_push (put s t (record (s.tasks t) { state = ready; slice_left = rr_slice_ticks })) t

-- `set_cntv` and `gic_eoi`, which stand before every return.
unfoldable pub finish : (iar : ℕ) → Sched → Board → Board
finish iar s b = record b { sched = record s { timer = set_cntv s.timer }; gic = gic_eoi iar b.gic }

-- The second half of `schedule_on_tick`, from `next = rq_pop()` on.
unfoldable pub switch_to_next : (iar tf : ℕ) → Sched → Board → ℕ × Board
switch_to_next iar tf s b =
    let (next, s') = rq_pop s in
    if next == 0
    then (if s'.current == 0 then tf else (s'.tasks s'.current).context, finish iar s' b)
    else (let s'' = put s' next (record (s'.tasks next) { state = running }) in
        ((s''.tasks next).context, finish iar (record s'' { current = next }) b))

-- The number of the interrupt, `iar & 0x3ff`, is computed and not used.
unfoldable pub schedule_on_tick : (iar tf : ℕ) → Board → ℕ × Board
schedule_on_tick iar tf b =
    let s = b.sched in
    let t = s.current in
    if not (t == 0) && is_running (s.tasks t).state
    then (let left = (s.tasks t).slice_left - 1 in
        if ltb 0 left
        then (tf, finish iar (put s t (record (s.tasks t) { context = tf; slice_left = left })) b)
        else switch_to_next iar tf
            (rq_push
              (put s t
                (record (s.tasks t) { context = tf; slice_left = rr_slice_ticks; state = ready }))
              t)
            b)
    else switch_to_next iar tf s b

-- 34 words, aligned to 16 bytes.
abbrev pub sizeof_context : ℕ
sizeof_context = 272

abbrev pub stk_sz : ℕ
stk_sz = 4096

-- The stacks are arrays of the kernel's image, so `kstk_base + sz` does not wrap.
unfoldable pub task_init : (t id name entry kstk_base ustk_base sz : ℕ) → Board → Board
task_init t id name entry kstk_base ustk_base sz b =
    let ctx = kstk_base + sz - sizeof_context in
    record b {
      sched =
          sched_ready_enqueue
            (put b.sched t (record (b.sched.tasks t) {
              id = id;
              name = name;
              kernel_stack = kstk_base;
              user_stack = ustk_base;
              context = ctx;
            }))
            t;
      contexts =
          update b.contexts ctx
            (build_initial_context (b.contexts ctx) entry ((ustk_base + sz) % 2 ^ 64));
    }

-- The addresses of the image: tasks, names, functions and stacks.
pub record Image : Type 0 where
  pub t0 : ℕ
  pub t1 : ℕ
  pub name_a : ℕ
  pub name_b : ℕ
  pub user_loop : ℕ
  pub user_loop2 : ℕ
  pub kstack0 : ℕ
  pub ustack0 : ℕ
  pub kstack1 : ℕ
  pub ustack1 : ℕ

-- The context that the processor enters, and the state then.
unfoldable pub kmain : Image → Board → ℕ × Board
kmain i b =
    let b = record b {
      uart = uart_init b.uart;
      gic = gic_init b.gic;
      sched = record b.sched { timer = timer_init_1khz b.sched.timer };
    } in
    let b = task_init i.t0 0 i.name_a i.user_loop i.kstack0 i.ustack0 stk_sz b in
    let b = task_init i.t1 1 i.name_b i.user_loop2 i.kstack1 i.ustack1 stk_sz b in
    let b = record b { sched = sched_set_current b.sched i.t0; irq_masked = false } in
    ((b.sched.tasks i.t0).context, b)
