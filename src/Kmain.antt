-- ===== src/Kmain.antt =====
-- The start of the kernel, kernel/core/kmain.c: `init_task`, and `kmain` up to the entry into the
-- first process. Addresses of functions, the device and its answers, the memory of the device tree
-- and what the stack holds where `kmalloc` has its array are parameters; messages are left out.
pub mod Task
pub mod Started
pub mod Booted
use kernel_fuzzing.Base.{
  ℕ, zero, suc, ◌+◌, ◌-◌, ◌*◌, ◌^◌, Bool, true, false, Option, some, List, ◌>>=◌, update,
}
use kernel_fuzzing.PageAlloc.{Buffer, BitIndex, init_allocation_map}
use kernel_fuzzing.PageTable.{
  add64, table_start, kernal_to_user_space, map_user_to_physical, map_user_to_physical_test,
}
use kernel_fuzzing.Kmalloc.{Kernel, kmalloc, init_bitmap}
use kernel_fuzzing.Sched.{
  Sched, Context, put, sched_ready_enqueue, sched_set_current, build_initial_context,
  timer_init_1khz,
}
use kernel_fuzzing.Uart.{Registers, uart_init}
use kernel_fuzzing.Irq.{Writes, gic_init}
use kernel_fuzzing.DeviceTree.{Bytes, get_drive_info}
use kernel_fuzzing.Virtio.{Device}
use kernel_fuzzing.Block.{Used, Driver, block_read, block_write}
use kernel_fuzzing.Block.Backend.{Backend, init_virtio_backend}

-- The tables and the heap, the scheduler with the tasks, and the contexts in memory by address.
pub record Tasks : Type 0 where
  pub heap : Kernel
  pub sched : Sched
  pub contexts : ℕ → Context

-- A context is aligned to 16 bytes, so its 280 bytes are padded to 288.
abbrev pub sizeof_context : ℕ
sizeof_context = 288

abbrev pub sizeof_task : ℕ
sizeof_task = 56

abbrev pub stack_sz : ℕ
stack_sz = 4096

-- The writes to the fields of the task, and to its context; the other fields stay.
unfoldable pub fill_task : (task id name kernel_stack user_stack entry sz : ℕ) → Tasks → Tasks
fill_task task id name kernel_stack user_stack entry sz s =
    let ctx = add64 (add64 kernel_stack sz) (2 ^ 64 - sizeof_context) in
    record s {
      sched = put s.sched task (record (s.sched.tasks task) {
        id = id;
        name = name;
        kernel_stack = kernel_stack;
        user_stack = user_stack;
        context = ctx;
      });
      contexts =
          update s.contexts ctx (record (build_initial_context (s.contexts ctx) entry user_stack) {
            ttbr0_el1 = table_start id;
          });
    }

module _ (block : ℕ) (stack : List BitIndex) (sys_write uart_printf : ℕ) where
  -- The address of the task, with the task in the queue.
  unfoldable pub init_task : (id name entry sz : ℕ) → Tasks → Option (ℕ × Tasks)
  init_task id name entry sz s = do
    let m = map_user_to_physical s.heap.memory id sys_write
    let m = map_user_to_physical m id uart_printf
    (task, k) ← kmalloc block stack (record s.heap { memory = m }) sizeof_task
    (kstack, k) ← kmalloc block stack k sz
    (ustack_t, k) ← kmalloc block stack k sz
    let ustack = kernal_to_user_space ustack_t
    let m = map_user_to_physical_test k.memory id ustack
    let entry = kernal_to_user_space entry
    let m = map_user_to_physical m id entry
    let s = record s { heap = record k { memory = m } }
    let s = fill_task task id name kstack (add64 ustack sz) entry sz s
    some (task, record s { sched = sched_ready_enqueue s.sched task })

  -- The end of `kmain`: two tasks, the first one current; its context is where the processor goes.
  unfoldable pub start_tasks :
      (name1 user_process1 name2 user_process2 : ℕ) → Tasks → Option (ℕ × Tasks)
  start_tasks name1 user_process1 name2 user_process2 s = do
    (task1, s) ← init_task 1 name1 user_process1 stack_sz s
    (task2, s) ← init_task 2 name2 user_process2 stack_sz s
    let sched = sched_set_current s.sched task1
    some ((sched.tasks task1).context, record s { sched = sched })

-- What `kmain` finds outside it: the block for the tables, what its stack holds, the addresses of
-- functions and names, the start of the memory for the bitmap and what it holds, the blob with the
-- device tree, the words of `drive_info` at first, and the device with its two answers.
pub record Outside : Type 0 where
  pub block : ℕ
  pub stack : List BitIndex
  pub sys_write : ℕ
  pub uart_printf : ℕ
  pub name1 : ℕ
  pub user_process1 : ℕ
  pub name2 : ℕ
  pub user_process2 : ℕ
  pub block_memory_start : ℕ
  pub buffer_at : ℕ → Buffer
  pub blob : Bytes
  pub drive_info : ℕ → ℕ
  pub device : Device
  pub written : Used → Used
  pub read : Used → Used

-- What it changes; `bytes` is the memory it writes by address, `irq_masked` the bit I of DAIF.
pub record System : Type 0 where
  pub uart : Registers
  pub gic : Writes
  pub irq_masked : Bool
  pub bytes : Bytes
  pub backend : Backend
  pub sched : Sched
  pub contexts : ℕ → Context

-- "fork", its zero, and one more letter on the last page.
unfoldable pub write_fork : (test : ℕ) → Bytes → Bytes
write_fork test m =
    let m =
      update (update (update (update m test 102) (test + 1) 111) (test + 2) 114) (test + 3) 107 in
    update (update m (test + 13000) 102) (test + 4) 0

-- `data[from] = … = 'Y'`, for `left` bytes.
unfoldable pub write_y : (left from : ℕ) → Bytes → Bytes
write_y zero from m = m
write_y (suc left) from m = write_y left (from + 1) (update m from 89)

module _ (fuel : ℕ) (o : Outside) where
  -- Up to the answers of the block device; `spin_unlock_with_mask` in the driver has unmasked the
  -- interrupts.
  unfoldable pub start_devices : (total_ram : ℕ) → System → Option System
  start_devices total_ram s = do
    let bitmap = init_allocation_map o.block_memory_start total_ram
    let k = init_bitmap (o.buffer_at bitmap) s.backend.driver.heap
    (test, k) ← kmalloc o.block o.stack k 16000
    (info, k) ← kmalloc o.block o.stack k 48
    drive_info ← get_drive_info o.blob fuel o.drive_info
    let b = record s.backend { driver = record s.backend.driver { heap = k } }
    b ← init_virtio_backend o.block o.stack o.device (drive_info 0) b
    (buffer, k) ← kmalloc o.block o.stack b.driver.heap 4
    let d = record b.driver { heap = k }
    (_, d) ← block_write o.block o.stack o.written 1000 buffer 512 d
    (_, d) ← block_read o.block o.stack o.read 1000 buffer 512 d
    some (record {
      uart = uart_init s.uart;
      gic = gic_init s.gic;
      irq_masked = false;
      bytes = write_y 6 (buffer + 1) (write_fork test s.bytes);
      backend = record b { driver = d };
      sched = record s.sched { timer = timer_init_1khz s.sched.timer };
      contexts = s.contexts;
    })

  -- The context that the processor enters, and the state then.
  unfoldable pub kmain : (total_ram : ℕ) → System → Option (ℕ × System)
  kmain total_ram s = do
    s ← start_devices total_ram s
    let s = record s { irq_masked = true }
    (context, t) ←
        start_tasks o.block o.stack o.sys_write o.uart_printf o.name1 o.user_process1 o.name2
          o.user_process2
          (record { heap = s.backend.driver.heap; sched = s.sched; contexts = s.contexts })
    some (
      context,
      record s {
        irq_masked = false;
        backend = record s.backend { driver = record s.backend.driver { heap = t.heap } };
        sched = t.sched;
        contexts = t.contexts;
      },
    )
