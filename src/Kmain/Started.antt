-- ===== src/Kmain/Started.antt =====
-- What the end of `kmain` of kernel/core/kmain.c leaves for the first tick: two tasks in turn, each
-- with its code and its stack mapped.
use kernel_fuzzing.Base.{
  ℕ, ◌+◌, ◌*◌, ◌/◌, ◌%◌, ◌^◌, ◌≤◌, ◌<◌, ◌≡◌, ◌≢◌, refl, ap, ◌∙◌, subst, some, List, [], ◌∷◌, length,
  arith, update, has, false,
}
use kernel_fuzzing.PageAlloc.{BitIndex}
use kernel_fuzzing.PageTable.{Memory, table_start}
use kernel_fuzzing.PageTable.Walk.{walk}
use kernel_fuzzing.PageTable.Process.{walk-Reaches, Reaches-frame}
use kernel_fuzzing.Kmalloc.Mapping.{IsBlock, heap_pa, heap_va}
use kernel_fuzzing.Kmalloc.Laws.{IsHeap}
use kernel_fuzzing.Kmalloc.Pages.{IsApart}
use kernel_fuzzing.Sched.{
  Task, Sched, Context, put, sched_ready_enqueue, sched_set_current, rq_push,
}
use kernel_fuzzing.Sched.Start.{Waiting-first, Waiting-enqueued, Waiting-put, Turn-current}
use kernel_fuzzing.Sched.Round.{Turn}
use kernel_fuzzing.Kmain.{Tasks, init_task, start_tasks, stack_sz}
use kernel_fuzzing.Kmain.Task.{IsEntry, Initialised, init_task-Initialised}

-- A process is ready to run: its context `c` enters `entry` with its own tables, these lead to its
-- ten pages of code, and to its stack on page `q` of the heap, whose end is in the context.
pub record IsReady (id entry q : ℕ) (m : Memory) (c : Context) : Type 0 where
  pub starts : c.elr_el1 ≡ entry % 2 ^ 48
  pub stacked : c.sp_el0 ≡ heap_pa q + 4096
  pub tables : c.ttbr0_el1 ≡ table_start id
  pub level : c.spsr_el1 ≡ 0
  pub code :
      (va : ℕ)
      → entry % 2 ^ 48 / 4096 * 4096 ≤ va
      → va < entry % 2 ^ 48 / 4096 * 4096 + 40960
      → walk m (table_start id) va ≡ some va
  pub stack :
      (off : ℕ) → off < 4096 → walk m (table_start id) (heap_pa q + off) ≡ some (heap_pa q + off)

-- The context of page `q` of the heap, at the end of a kernel stack.
abbrev pub context_at : ℕ → ℕ
context_at q = heap_va q + 3808

-- Both tasks are there: the first one runs, its context is the result.
pub record Running (block n user_process1 user_process2 context : ℕ) (after : Tasks) : Type 0 where
  pub turn : Turn 10 after.sched (heap_va n ∷ heap_va (n + 3) ∷ [])
  pub enters : context ≡ context_at (n + 1)
  pub saved : (after.sched.tasks (heap_va (n + 3))).context ≡ context_at (n + 3 + 1)
  pub first :
      IsReady 1 user_process1 (n + 2) after.heap.memory (after.contexts (context_at (n + 1)))
  pub second :
      IsReady 2 user_process2
        (n + 3 + 2)
        after.heap.memory
        (after.contexts (context_at (n + 3 + 1)))
  pub heap : IsHeap block (n + 6) after.heap

-- The queue after both enqueues, the first task made current.
Turn-two :
    (s : Sched) (a b : ℕ) (x y : Task)
    → s.rq_tail ≡ 0
    → a ≢ b
    → a ≢ 0
    → b ≢ 0
    → Turn 10
        (sched_set_current (sched_ready_enqueue (put (sched_ready_enqueue (put s a x) a) b y) b) a)
        (a ∷ b ∷ [])
Turn-two s a b x y empty differ na nb =
    let s1 = sched_ready_enqueue (put s a x) a in
    let new : has b (a ∷ []) ≡ false = ground arith in
    let w1 = Waiting-put s1 a [] b y new (Waiting-first (put s a x) a empty) in
    let w2 = Waiting-enqueued (put s1 b y) a [] b new (refl, tt) (na, tt) w1 in
    Turn-current (sched_ready_enqueue (put s1 b y) b) a (b ∷ [])
      ((ground arith, (refl, tt)), (na, (nb, tt))) w2

-- The contexts of the tasks stay where they are.
context_current :
    (s : Sched) (a t : ℕ) → ((sched_set_current s a).tasks t).context ≡ (s.tasks t).context
unfolding sched_set_current update
context_current s a t = ground arith

context_enqueued :
    (s : Sched) (a b : ℕ) (y : Task)
    → a ≢ b
    → ((sched_ready_enqueue (put s b y) b).tasks a).context ≡ (s.tasks a).context
unfolding sched_ready_enqueue rq_push update
context_enqueued s a b y differ = ground arith

-- What `init_task` gives a process, as long as nothing writes to its tables.
IsReady-Initialised :
    (block n id name entry : ℕ) (before : Tasks) (task : ℕ) (after : Tasks) (m : Memory)
    (c : Context)
    → n + 3 ≤ 512
    → IsEntry (entry % 2 ^ 48) (n + 2)
    → Initialised block n id name entry stack_sz before task after
    → ((w : ℕ) → table_start id ≤ w → w < table_start id + 0x31000 → m w ≡ after.heap.memory w)
    → c ≡ after.contexts (context_at (n + 1))
    → IsReady id entry (n + 2) m c
IsReady-Initialised block n id name entry before task after m c room ok h same e =
    let kept = λ (va page : ℕ). Reaches-frame after.heap.memory m id va page same in
    rw e (record {
      starts = h.starts;
      stacked = h.stacked;
      tables = h.tables;
      level = h.level;
      code = λ va lo hi.
          walk-Reaches m id va (va / 4096) (omega (arith, ok.0))
            (kept va (va / 4096) (h.code va lo hi))
          ∙ ap some (omega arith);
      stack = λ off small.
          walk-Reaches m id (heap_pa (n + 2) + off) (heap_pa (n + 2) / 4096) (omega arith) (
            kept (heap_pa (n + 2) + off) (heap_pa (n + 2) / 4096)
              (h.stack (heap_pa (n + 2) + off) (omega arith)))
          ∙ ap some (omega arith);
    })

module _ (block : ℕ) (stack : List BitIndex)
    (sys_write uart_printf name1 user_process1 name2 user_process2 : ℕ) where
  start_tasks_lem :
      (s s1 s2 : Tasks) (task1 task2 : ℕ)
      → init_task block stack sys_write uart_printf 1 name1 user_process1 stack_sz s
        ≡ some (task1, s1)
      → init_task block stack sys_write uart_printf 2 name2 user_process2 stack_sz s1
        ≡ some (task2, s2)
      → start_tasks block stack sys_write uart_printf name1 user_process1 name2 user_process2 s
        ≡ some (
          ((sched_set_current s2.sched task1).tasks task1).context,
          record s2 { sched = sched_set_current s2.sched task1 },
        )
  unfolding start_tasks
  start_tasks_lem s s1 s2 task1 task2 e1 e2 = rw (start_tasks, e1, e2) refl

  module _ (ok : IsBlock block) (apart : IsApart block) (frame : length stack ≡ 64) (n : ℕ)
      (room : n + 6 ≤ 512) (ok1 : IsEntry (user_process1 % 2 ^ 48) (n + 2))
      (ok2 : IsEntry (user_process2 % 2 ^ 48) (n + 3 + 2)) where
    -- Both tasks, once `init_task` has made them.
    Running-both :
        (s s1 s2 : Tasks)
        → s.sched.rq_tail ≡ 0
        → Initialised block n 1 name1 user_process1 stack_sz s (heap_va n) s1
        → Initialised block (n + 3) 2 name2 user_process2 stack_sz s1 (heap_va (n + 3)) s2
        → Running block n user_process1 user_process2
            ((sched_set_current s2.sched (heap_va n)).tasks (heap_va n)).context
            (record s2 { sched = sched_set_current s2.sched (heap_va n) })
    Running-both s s1 s2 empty h1 h2 =
        let a = heap_va n in
        let b = heap_va (n + 3) in
        let (x, e1) = h1.queued in
        let (y, e2) = h2.queued in
        let differ : a ≢ b = λ e. omega arith in
        record {
          turn =
              rw (e2, e1)
                (Turn-two s.sched a b x y empty differ (λ e. omega arith) (λ e. omega arith));
          enters =
              context_current s2.sched a a
              ∙ ap (λ (t : Sched). (t.tasks a).context) e2
              ∙ context_enqueued s1.sched a b y differ
              ∙ h1.context;
          saved = context_current s2.sched a b ∙ h2.context;
          first =
              IsReady-Initialised block n 1 name1 user_process1 s a s1 s2.heap.memory _
                (omega arith) ok1 h1 (λ w lo hi. h2.others w (ground arith))
                (h2.contexts_other (context_at (n + 1)) (λ e. omega arith));
          second =
              IsReady-Initialised block (n + 3) 2 name2 user_process2 s1 b s2 s2.heap.memory _
                (omega arith) ok2 h2 (λ w lo hi. refl) refl;
          heap = subst (λ t. IsHeap block t s2.heap) (omega arith) h2.heap;
        }

    -- On a well-formed heap with room for six pages and an empty queue, for functions whose pages
    -- are apart from their stacks, start_tasks makes two tasks in turn, the first one running on a full slice, and returns its context. Each context enters
    -- its function with the tables of its process, which lead to the code and the stack.
    pub start_tasks-Running :
        (s : Tasks)
        → s.sched.rq_tail ≡ 0
        → IsHeap block n s.heap
        → (context : ℕ) × (after : Tasks) × (start_tasks block stack sys_write uart_printf name1
              user_process1 name2 user_process2 s
            ≡ some (context, after))
          × Running block n user_process1 user_process2 context after
    start_tasks-Running s empty heap =
        let (task1, s1, e1, h1) =
          init_task-Initialised block apart stack sys_write uart_printf 1 name1 user_process1
            stack_sz n (omega arith) (omega arith) (omega arith) ok1 ok frame s heap in
        let (task2, s2, e2, h2) =
          init_task-Initialised block apart stack sys_write uart_printf 2 name2 user_process2
            stack_sz (n + 3) (omega arith) (omega arith) (omega arith) ok2 ok frame s1 h1.heap in
        let h1' =
          subst (λ t. Initialised block n 1 name1 user_process1 stack_sz s t s1) h1.address h1 in
        let h2' =
          subst (λ t. Initialised block (n + 3) 2 name2 user_process2 stack_sz s1 t s2) h2.address
            h2 in
        let e1' = e1 ∙ ap (λ t. some (t, s1)) h1.address in
        let e2' = e2 ∙ ap (λ t. some (t, s2)) h2.address in
        (
          ((sched_set_current s2.sched (heap_va n)).tasks (heap_va n)).context,
          record s2 { sched = sched_set_current s2.sched (heap_va n) },
          start_tasks_lem s s1 s2 (heap_va n) (heap_va (n + 3)) e1' e2',
          Running-both s s1 s2 empty h1' h2',
        )
