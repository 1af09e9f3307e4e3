-- ===== src/Tests/Stages.antt =====
-- The earlier kernels, kernel-interrupts/, kernel-simple-scheduler/ and kernel-simple-mmu/, on small
-- inputs.
use kernel_fuzzing.Base.{List, some, ◌/◌, ℕ, ◌+◌, ◌≡◌, refl, true, [], ◌∷◌, arith, update}
use kernel_fuzzing.Sched.{Task, Timer, Context, TaskState, rq_push, sched_set_current}
use kernel_fuzzing.Interrupts
use kernel_fuzzing.Interrupts.Counting.{Counted, interrupts, ended, interrupts-kmain}
use kernel_fuzzing.PageTable
use kernel_fuzzing.PageTable.{l0_base_phys, table_start}
use kernel_fuzzing.PageTable.Walk.{walk}
use kernel_fuzzing.PageTable.Init.{
  phys_kernel_base, virt_kernel_base, phys_region_2_base, virt_region_2_base, virtual_gicd_base,
  gicd_base,
}
use kernel_fuzzing.SimpleMmu
use kernel_fuzzing.SimpleMmu.Laws.{IsOutside, walk-mmu_init_simple, map_user_to_physical_later}
use kernel_fuzzing.Tests.Tables.{blank, reset_registers}
use kernel_fuzzing.SimpleSched
use kernel_fuzzing.SimpleSched.Turns.{Pair}
use kernel_fuzzing.SimpleSched.Alternation.{ticks, resumed, saved_after}
use kernel_fuzzing.SimpleSched.Started.{Enters, IsImage, kmain-alternate}

abbrev stopped_timer : Timer
stopped_timer = record { cntfrq_el0 = 62500000; cntfrq = 0; cntv_tval_el0 = 0; cntv_ctl_el0 = 0 }

abbrev reset : Interrupts.Board
reset = record {
  uart = λ r. 0;
  out = [];
  gic = [];
  timer = stopped_timer;
  jiffies = 0;
  irq_masked = true;
  sp_el0 = 0;
  spsr_el1 = 0;
  elr_el1 = 0;
}

-- Two ticks, at which the timer has run down, and an interrupt of another device between them.
abbrev three : List (ℕ × ℕ)
three = (27, 0) ∷ ((33, 999) ∷ ((27, 0) ∷ []))

interrupts-kmain_example :
    let started = Interrupts.kmain 4096 reset in
    let b' = interrupts three started in
    Counted started.out 2 4096 b'
    × (b'.timer.cntv_tval_el0 ≡ 62500)
    × (b'.gic ≡ ended three started.gic)
interrupts-kmain_example = interrupts-kmain 4096 reset three refl (omega arith)

abbrev no_task : Task
no_task = record {
  id = 0;
  state = TaskState.ready;
  context = 0;
  user_stack = 0;
  kernel_stack = 0;
  slice_left = 0;
  name = 0;
  next = 0;
}

abbrev no_context : Context
no_context = record { sp_el0 = 0; elr_el1 = 0; spsr_el1 = 0; ttbr0_el1 = 0 }

abbrev boot : SimpleSched.Board
boot = record {
  sched = record {
    tasks = λ t. no_task;
    rq_head = 0;
    rq_tail = 0;
    current = 0;
    timer = stopped_timer;
  };
  contexts = λ c. no_context;
  gic = [];
  uart = λ r. 0;
  irq_masked = true;
}

abbrev image : SimpleSched.Image
image = record {
  t0 = 0x40001000;
  t1 = 0x40001040;
  name_a = 0x40002000;
  name_b = 0x40002002;
  user_loop = 0x40000100;
  user_loop2 = 0x40000200;
  kstack0 = 0x40010000;
  ustack0 = 0x40011000;
  kstack1 = 0x40012000;
  ustack1 = 0x40013000;
}

image_apart : IsImage image
image_apart = record {
  tasks = λ e. omega (arith, e);
  nonnull = ((λ e. omega (arith, e)), (λ e. omega (arith, e)));
  stacks = λ e. omega (arith, e);
  below = (omega arith, omega arith);
}

-- After three slices the second program runs.
kmain-alternate_example :
    let (context, b') = SimpleSched.kmain image boot in
    let saved = (b'.sched.tasks 0x40001040).context in
    Enters (b'.contexts context) 0x40000100 0x40012000
    × Enters (b'.contexts saved) 0x40000200 0x40014000
    × Pair (ticks (λ n. 27) (λ n. n + 1) 30000 b').sched 0x40001040 0x40001000 10000
    × (resumed (λ n. 27) (λ n. n + 1) 39999 b' ≡ saved_after (λ n. 27) (λ n. n + 1) b' saved 3)
kmain-alternate_example = kmain-alternate image image_apart boot refl (λ n. 27) (λ n. n + 1) 3

-- The first tick of a slice goes on, and leaves 9999 ticks.
first_tick :
    let b = SimpleSched.kmain image boot in
    let (context, b') = SimpleSched.schedule_on_tick 27 5 b.1 in
    (b.0 ≡ 0x40010EF0) × (context ≡ 5) × ((b'.sched.tasks 0x40001000).slice_left ≡ 9999)
unfolding SimpleSched.kmain SimpleSched.task_init SimpleSched.sched_ready_enqueue
    SimpleSched.schedule_on_tick SimpleSched.finish rq_push sched_set_current update
first_tick = (refl, refl, refl)

walk-mmu_init_simple_example :
    let (t, r') = SimpleMmu.mmu_init blank reset_registers in
    (walk t l0_base_phys (phys_kernel_base + 0x2468) ≡ some (phys_kernel_base + 0x2468))
    × (walk t l0_base_phys (virt_kernel_base + 0x2468) ≡ some (phys_kernel_base + 0x2468))
    × (walk t l0_base_phys (virt_region_2_base + 0x2468) ≡ some (phys_region_2_base + 0x2468))
    × (walk t l0_base_phys (virtual_gicd_base + 0x2468) ≡ some (gicd_base + 0x2468))
    × (r'.ttbr0_el1 ≡ l0_base_phys)
    × (r'.ttbr1_el1 ≡ l0_base_phys)
walk-mmu_init_simple_example = walk-mmu_init_simple blank reset_registers 0x2468 (omega arith)

map_user_to_physical_later_example :
    let later = PageTable.map_user_to_physical_test blank 1 0x40001234 in
    (SimpleMmu.map_user_to_physical blank 1 0x40001234 ≡ later)
    × (SimpleMmu.map_user_to_physical_test blank 1 0x40001234 ≡ later)
    × ((va : ℕ) → va / 4096 ≡ 0x40001234 / 4096 → walk later (table_start 1) va ≡ some va)
    × ((w : ℕ) → IsOutside (table_start 1) w → later w ≡ blank w)
map_user_to_physical_later_example = map_user_to_physical_later blank 1 0x40001234 (omega arith)
