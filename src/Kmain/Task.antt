-- ===== src/Kmain/Task.antt =====
-- What `init_task` of kernel/core/kmain.c makes.
use kernel_fuzzing.Base.{
  ℕ, ◌+◌, ◌-◌, ◌*◌, ◌/◌, ◌%◌, ◌^◌, ◌≤◌, ◌<◌, ◌≡◌, ◌≢◌, ◌⊎◌, refl, ap, ◌∙◌, subst, some, List,
  length, arith, update, update_self, update_ne,
}
use kernel_fuzzing.Base.Bits.{bit_and_low}
use kernel_fuzzing.PageAlloc.{BitIndex}
use kernel_fuzzing.PageTable.{
  Memory, add64, table_start, kernal_to_user_space, map_user_to_physical, map_user_to_physical_test,
}
use kernel_fuzzing.PageTable.User.{map_user_to_physical_frame, map_user_to_physical_test_frame}
use kernel_fuzzing.PageTable.Process.{
  Reaches, Reaches-map_user_to_physical, Reaches-other, Reaches-map_user_to_physical_test,
}
use kernel_fuzzing.Kmalloc.{Kernel, kmalloc}
use kernel_fuzzing.Kmalloc.Mapping.{IsBlock, heap_pa, heap_va}
use kernel_fuzzing.Kmalloc.Laws.{IsHeap}
use kernel_fuzzing.Kmalloc.Pages.{
  IsApart, IsUser, kmalloc_page_users, physical_heap, IsHeap-Agree, Agree-map_user_to_physical,
  Agree-map_user_to_physical_test,
}
use kernel_fuzzing.Sched.{
  Task, Sched, Context, put, sched_ready_enqueue, rq_push, build_initial_context, spsr_el0t_default,
}
use kernel_fuzzing.Kmain.{Tasks, fill_task, init_task, sizeof_context}

-- Where a process starts: below 2 ^ 48 with its ten pages in one table of level 3, none of them
-- with the index of the page of its stack, which is page `q` of the heap.
abbrev pub IsEntry : (entry q : ℕ) → Type 0
IsEntry entry q =
    (entry + 40960 < 2 ^ 48)
    × (entry / 4096 % 512 + 10 ≤ 512)
    × ((q < entry / 4096 % 512) ⊎ (entry / 4096 % 512 + 10 ≤ q))

-- The memory of the heap once the three pages are taken and everything is mapped.
abbrev mapped : Memory → (id ustack entry : ℕ) → Memory
mapped m id ustack entry = map_user_to_physical (map_user_to_physical_test m id ustack) id entry

module _ (block : ℕ) (apart : IsApart block) where
  module _ (n : ℕ) (k : Kernel) (heap : IsHeap block n k) (id a b : ℕ) where
    IsHeap-before :
        IsHeap block n
          (record k { memory = map_user_to_physical (map_user_to_physical k.memory id a) id b })
    IsHeap-before =
        let m = map_user_to_physical k.memory id a in
        IsHeap-Agree block n (record k { memory = m }) (map_user_to_physical m id b)
          (Agree-map_user_to_physical block apart m id b)
          (IsHeap-Agree block n k m (Agree-map_user_to_physical block apart k.memory id a) heap)

    IsHeap-mapped : IsHeap block n (record k { memory = mapped k.memory id a b })
    IsHeap-mapped =
        let m = map_user_to_physical_test k.memory id a in
        IsHeap-Agree block n (record k { memory = m }) (map_user_to_physical m id b)
          (Agree-map_user_to_physical block apart m id b)
          (IsHeap-Agree block n k m (Agree-map_user_to_physical_test block apart k.memory id a)
            heap)

-- The user tables of the other process.
abbrev pub IsOther : (id w : ℕ) → Type 0
IsOther id w = IsUser w × ((w < table_start id) ⊎ (table_start id + 0x31000 ≤ w))

-- The stack and the code of the process, once mapped.
module _ (m : Memory) (id q entry : ℕ) (small : q < 512) (ok : IsEntry entry q) where
  reaches_code :
      (va : ℕ)
      → entry / 4096 * 4096 ≤ va
      → va < entry / 4096 * 4096 + 40960
      → Reaches (mapped m id (heap_pa q) entry) id va (va / 4096)
  reaches_code va lo hi =
      Reaches-map_user_to_physical (map_user_to_physical_test m id (heap_pa q)) id entry va ok.0
        ok.1 lo hi

  reaches_stack :
      (va : ℕ)
      → va / 4096 ≡ heap_pa q / 4096
      → Reaches (mapped m id (heap_pa q) entry) id va (heap_pa q / 4096)
  reaches_stack va same =
      Reaches-other (map_user_to_physical_test m id (heap_pa q)) id entry va (heap_pa q / 4096) ok.0
        ok.1 (omega (arith, ok.2))
        (Reaches-map_user_to_physical_test m id (heap_pa q) va (omega arith) same)

  mapped_other : (w : ℕ) → IsOther id w → mapped m id (heap_pa q) entry w ≡ m w
  mapped_other w other =
      map_user_to_physical_frame (map_user_to_physical_test m id (heap_pa q)) id entry w other.1
      ∙ map_user_to_physical_test_frame m id (heap_pa q) w other.1

-- A new task: its fields, its context, its place in the queue, and its pages.
pub record Initialised (block n id name entry sz : ℕ) (before : Tasks) (task : ℕ) (after : Tasks)
    : Type 0 where
  pub address : task ≡ heap_va n
  pub heap : IsHeap block (n + 3) after.heap
  pub queued :
      (x : Task) × (after.sched ≡ sched_ready_enqueue (put before.sched (heap_va n) x) (heap_va n))
  pub number : (after.sched.tasks (heap_va n)).id ≡ id
  pub named : (after.sched.tasks (heap_va n)).name ≡ name
  pub context : (after.sched.tasks (heap_va n)).context ≡ heap_va (n + 1) + (sz - sizeof_context)
  pub kernel_stack : (after.sched.tasks (heap_va n)).kernel_stack ≡ heap_va (n + 1)
  pub user_stack : (after.sched.tasks (heap_va n)).user_stack ≡ heap_pa (n + 2) + sz
  pub starts : (after.contexts (heap_va (n + 1) + (sz - sizeof_context))).elr_el1 ≡ entry % 2 ^ 48
  pub stacked :
      (after.contexts (heap_va (n + 1) + (sz - sizeof_context))).sp_el0 ≡ heap_pa (n + 2) + sz
  pub tables : (after.contexts (heap_va (n + 1) + (sz - sizeof_context))).ttbr0_el1 ≡ table_start id
  pub level : (after.contexts (heap_va (n + 1) + (sz - sizeof_context))).spsr_el1 ≡ 0
  pub contexts_other :
      (c : ℕ) → c ≢ heap_va (n + 1) + (sz - sizeof_context) → after.contexts c ≡ before.contexts c
  pub code :
      (va : ℕ)
      → entry % 2 ^ 48 / 4096 * 4096 ≤ va
      → va < entry % 2 ^ 48 / 4096 * 4096 + 40960
      → Reaches after.heap.memory id va (va / 4096)
  pub stack :
      (va : ℕ)
      → va / 4096 ≡ heap_pa (n + 2) / 4096
      → Reaches after.heap.memory id va (heap_pa (n + 2) / 4096)
  pub others : (w : ℕ) → IsOther id w → after.heap.memory w ≡ before.heap.memory w

-- `sched_ready_enqueue` leaves these fields.
module _ (s : Sched) (t : ℕ) (x : Task) where
  abbrev queue : Sched
  queue = sched_ready_enqueue (put s t x) t

  queue_fields :
      ((queue.tasks t).id ≡ x.id)
      × ((queue.tasks t).name ≡ x.name)
      × ((queue.tasks t).context ≡ x.context)
      × ((queue.tasks t).kernel_stack ≡ x.kernel_stack)
      × ((queue.tasks t).user_stack ≡ x.user_stack)
  unfolding sched_ready_enqueue rq_push update
  queue_fields = (ground arith, ground arith, ground arith, ground arith, ground arith)

module _ (block : ℕ) (stack : List BitIndex) (sys_write uart_printf : ℕ)
    (id name entry sz : ℕ) where
  -- What is left once the three blocks are there.
  abbrev made : (task kstack ustack : ℕ) → Kernel → Tasks → Tasks
  made task kstack ustack k s =
      let m = mapped k.memory id (kernal_to_user_space ustack) (kernal_to_user_space entry) in
      let t =
        fill_task task id name kstack (add64 (kernal_to_user_space ustack) sz)
          (kernal_to_user_space entry) sz (record s { heap = record k { memory = m } }) in
      record t { sched = sched_ready_enqueue t.sched task }

  init_task_lem :
      (s : Tasks) (task kstack ustack : ℕ) (k1 k2 k3 : Kernel)
      → kmalloc block stack
          (record s.heap {
            memory =
                map_user_to_physical
                  (map_user_to_physical s.heap.memory id sys_write)
                  id
                  uart_printf;
          })
          56
        ≡ some (task, k1)
      → kmalloc block stack k1 sz ≡ some (kstack, k2)
      → kmalloc block stack k2 sz ≡ some (ustack, k3)
      → init_task block stack sys_write uart_printf id name entry sz s
        ≡ some (task, made task kstack ustack k3 s)
  unfolding init_task
  init_task_lem s task kstack ustack k1 k2 k3 e1 e2 e3 = rw (init_task, e1, e2, e3) refl

kernal_to_user_space_lem : (a : ℕ) → kernal_to_user_space a ≡ a % 2 ^ 48
unfolding kernal_to_user_space
kernal_to_user_space_lem a = bit_and_low 48 a

module _ (block : ℕ) (apart : IsApart block) (stack : List BitIndex) (sys_write uart_printf : ℕ)
    (id name entry sz n : ℕ) (room : n + 3 ≤ 512) (least : 288 ≤ sz) (most : sz ≤ 4096)
    (ok : IsEntry (entry % 2 ^ 48) (n + 2)) where
  abbrev the_task : Kernel → Tasks → Tasks
  the_task k s =
      made block stack sys_write uart_printf id name entry sz (heap_va n) (heap_va (n + 1))
        (heap_va (n + 2)) k s

  abbrev top : ℕ
  top = heap_va (n + 1) + (sz - sizeof_context)

  -- The fields that `fill_task` writes, with the addresses worked out.
  abbrev fields : Task → Task
  fields x = record x {
    id = id;
    name = name;
    kernel_stack = heap_va (n + 1);
    user_stack = heap_pa (n + 2) + sz;
    context = top;
  }

  abbrev registers : Context → Context
  registers c = record c {
    sp_el0 = heap_pa (n + 2) + sz;
    elr_el1 = entry % 2 ^ 48;
    spsr_el1 = 0;
    ttbr0_el1 = table_start id;
  }

  abbrev result : Kernel → Tasks → Tasks
  result k s = record {
    heap = record k { memory = mapped k.memory id (heap_pa (n + 2)) (entry % 2 ^ 48) };
    sched =
        sched_ready_enqueue (put s.sched (heap_va n) (fields (s.sched.tasks (heap_va n))))
          (heap_va n);
    contexts = update s.contexts top (registers (s.contexts top));
  }

  made_lem : (k : Kernel) (s : Tasks) → the_task k s ≡ result k s
  unfolding fill_task build_initial_context spsr_el0t_default
  made_lem k s =
      let u = physical_heap (n + 2) (omega arith) in
      let e = kernal_to_user_space_lem entry in
      let t : add64 (add64 (heap_va (n + 1)) sz) (2 ^ 64 - 288) ≡ top = omega arith in
      let v : add64 (heap_pa (n + 2)) sz ≡ heap_pa (n + 2) + sz = omega arith in
      rw (u, e, fill_task, t, v) refl

  result-Initialised :
      (k : Kernel) (s : Tasks)
      → IsHeap block (n + 3) k
      → ((w : ℕ) → IsOther id w → k.memory w ≡ s.heap.memory w)
      → Initialised block n id name entry sz s (heap_va n) (result k s)
  result-Initialised k s heap same =
      let x = fields (s.sched.tasks (heap_va n)) in
      let written = queue_fields s.sched (heap_va n) x in
      let context = update_self s.contexts top (registers (s.contexts top)) in
      record {
        address = refl;
        heap = IsHeap-mapped block apart (n + 3) k heap id (heap_pa (n + 2)) (entry % 2 ^ 48);
        queued = (x, refl);
        number = written.0;
        named = written.1;
        context = written.2;
        kernel_stack = written.3;
        user_stack = written.4;
        starts = ap (λ (c : Context). c.elr_el1) context;
        stacked = ap (λ (c : Context). c.sp_el0) context;
        tables = ap (λ (c : Context). c.ttbr0_el1) context;
        level = ap (λ (c : Context). c.spsr_el1) context;
        contexts_other = λ c other. update_ne s.contexts top (registers (s.contexts top)) c other;
        code = reaches_code k.memory id (n + 2) (entry % 2 ^ 48) (omega arith) ok;
        stack = reaches_stack k.memory id (n + 2) (entry % 2 ^ 48) (omega arith) ok;
        others = λ w other.
            mapped_other k.memory id (n + 2) (entry % 2 ^ 48) (omega arith) ok w other
            ∙ same w other;
      }

  -- On a well-formed heap with room for three pages, for a size from 288 to 4096 bytes and for a
  -- function whose ten pages stand in one table of level 3 beside the page of the stack, init_task returns a new task that is queued last,
  -- with its stacks and its context in its own pages; the context enters the function with the
  -- tables of the process, which lead to its code and its stack, and the tables of the other process
  -- stay.
  pub init_task-Initialised :
      IsBlock block
      → length stack ≡ 64
      → (s : Tasks) → IsHeap block n s.heap
      → (task : ℕ) × (after : Tasks) × (init_task block stack sys_write uart_printf id name entry sz
            s
          ≡ some (task, after))
        × Initialised block n id name entry sz s task after
  init_task-Initialised okb frame s heap =
      let m = map_user_to_physical s.heap.memory id sys_write in
      let k0 : Kernel = record s.heap { memory = map_user_to_physical m id uart_printf } in
      let h0 = IsHeap-before block apart n s.heap heap id sys_write uart_printf in
      let (k1, e1, h1, f1) =
        kmalloc_page_users block okb apart n k0 h0 stack 56 frame (omega arith) (omega arith) in
      let (k2, e2, h2, f2) =
        kmalloc_page_users block okb apart (n + 1) k1 h1 stack sz frame most (omega arith) in
      let h2' : IsHeap block (n + 2) k2 = subst (λ t. IsHeap block t k2) (omega arith) h2 in
      let (k3, e3, h3, f3) =
        kmalloc_page_users block okb apart (n + 2) k2 h2' stack sz frame most (omega arith) in
      let h3' : IsHeap block (n + 3) k3 = subst (λ t. IsHeap block t k3) (omega arith) h3 in
      let same = λ (w : ℕ) (o : IsOther id w).
        f3 w o.0
        ∙ f2 w o.0
        ∙ f1 w o.0
        ∙ map_user_to_physical_frame m id uart_printf w o.1
        ∙ map_user_to_physical_frame s.heap.memory id sys_write w o.1 in
      (
        heap_va n,
        result k3 s,
        init_task_lem block stack sys_write uart_printf id name entry sz s (heap_va n)
              (heap_va (n + 1)) (heap_va (n + 2)) k1 k2 k3 e1 e2 e3
            ∙ ap (λ t. some (heap_va n, t)) (made_lem k3 s),
        result-Initialised k3 s h3' same,
      )
