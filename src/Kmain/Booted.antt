-- ===== src/Kmain/Booted.antt =====
-- `kmain` of kernel/core/kmain.c from its first call to the entry into the first process.
use kernel_fuzzing.Base.{
  ℕ, ◌+◌, ◌%◌, ◌^◌, ◌≤◌, ◌≡◌, ◌≢◌, inl, inr, refl, ap, ◌∙◌, subst, false, true, some, List, ◌∷◌,
  length, arith,
}
use kernel_fuzzing.PageAlloc.{page_total, init_allocation_map}
use kernel_fuzzing.PageAlloc.Allocate.{page_total_lem}
use kernel_fuzzing.Kmalloc.{Kernel, kmalloc, init_bitmap}
use kernel_fuzzing.Kmalloc.Mapping.{IsBlock, heap_va}
use kernel_fuzzing.Kmalloc.Laws.{IsHeap, kmalloc-IsHeap}
use kernel_fuzzing.Kmalloc.Pages.{IsApart, kmalloc_page}
use kernel_fuzzing.Sched.{timer_init_1khz}
use kernel_fuzzing.Uart.{uart_init}
use kernel_fuzzing.Irq.{gic_init}
use kernel_fuzzing.DeviceTree.{get_drive_info, virt_struct_block, virt_strings_block}
use kernel_fuzzing.DeviceTree.Reading.{Holds}
use kernel_fuzzing.DeviceTree.Tree.{Item, tree_bytes, IsTree, IsDrive, drive_of}
use kernel_fuzzing.DeviceTree.DriveInfo.{get_drive_info-drive_of}
use kernel_fuzzing.Virtio.{Virtio, find_device}
use kernel_fuzzing.Block.{
  BlockData, Driver, block_read, block_write, virtio_blk_t_in, virtio_blk_t_out,
}
use kernel_fuzzing.Block.Transfer.{Handed, block_read-Handed, block_write-Handed}
use kernel_fuzzing.Block.Backend.{Backend, cleared, init_virtio_backend}
use kernel_fuzzing.Block.Backend.Started.{Started, rings_behind, init_virtio_backend-Started}
use kernel_fuzzing.Kmain.{
  Tasks, Outside, System, start_tasks, start_devices, kmain, write_fork, write_y,
}
use kernel_fuzzing.Kmain.Task.{IsEntry}
use kernel_fuzzing.Kmain.Started.{Running, start_tasks-Running}

module _ (fuel : ℕ) (o : Outside) (total_ram : ℕ) (s : System) where
  abbrev first_heap : Kernel
  first_heap =
      init_bitmap (o.buffer_at (init_allocation_map o.block_memory_start total_ram))
        s.backend.driver.heap

  abbrev with_heap : Kernel → Backend
  with_heap k = record s.backend { driver = record s.backend.driver { heap = k } }

  -- The state once the device has answered.
  abbrev devices : (test buffer : ℕ) → Backend → System
  devices test buffer b = record {
    uart = uart_init s.uart;
    gic = gic_init s.gic;
    irq_masked = false;
    bytes = write_y 6 (buffer + 1) (write_fork test s.bytes);
    backend = b;
    sched = record s.sched { timer = timer_init_1khz s.sched.timer };
    contexts = s.contexts;
  }

  start_devices_lem :
      (test info buffer r1 r2 : ℕ) (k1 k2 k3 : Kernel) (drive_info : ℕ → ℕ) (b : Backend)
      (d1 d2 : Driver)
      → kmalloc o.block o.stack first_heap 16000 ≡ some (test, k1)
      → kmalloc o.block o.stack k1 48 ≡ some (info, k2)
      → get_drive_info o.blob fuel o.drive_info ≡ some drive_info
      → init_virtio_backend o.block o.stack o.device (drive_info 0) (with_heap k2) ≡ some b
      → kmalloc o.block o.stack b.driver.heap 4 ≡ some (buffer, k3)
      → block_write o.block o.stack o.written 1000 buffer 512 (record b.driver { heap = k3 })
        ≡ some (r1, d1)
      → block_read o.block o.stack o.read 1000 buffer 512 d1 ≡ some (r2, d2)
      → start_devices fuel o total_ram s ≡ some (devices test buffer (record b { driver = d2 }))
  unfolding start_devices
  start_devices_lem test info buffer r1 r2 k1 k2 k3 drive_info b d1 d2 e1 e2 e3 e4 e5 e6 e7 =
      rw (start_devices, e1, e2, e3, e4, e5, e6, e7) refl

  -- The driver before the tasks: every slot is free, the lock too, and the device that was found is
  -- the one that it talks to.
  record Answered (after : System) : Type 0 where
    slots : after.backend.driver.slots.used_request_index ≡ cleared 12
    unlocked : after.backend.lock ≡ 0
    base : after.backend.virtio.virtio_base ≡ (find_device o.device s.backend.history).0
    notified : after.backend.driver.notified ≡ 0 ∷ 0 ∷ s.backend.driver.notified
    heap : IsHeap o.block 17 after.backend.driver.heap
    queue : after.sched.rq_tail ≡ s.sched.rq_tail

  answered :
      (k2 k3 : Kernel) (b : Backend) (d1 d2 : Driver) (reg test buffer : ℕ) (rest : List ℕ)
      → Started o.block 5 reg o.device (with_heap k2) b
      → b.virtio ≡ rings_behind 5 (find_device o.device s.backend.history).0
      → Handed o.block 13 0 virtio_blk_t_out 512 1000 buffer rest false
          (record b.driver { heap = k3 })
          d1
      → Handed o.block 15 0 virtio_blk_t_in 512 1000 buffer rest true d1 d2
      → rest ≡ cleared 11
      → Answered (devices test buffer (record b { driver = d2 }))
  unfolding cleared
  answered k2 k3 b d1 d2 reg test buffer rest st rings w r same = record {
    slots = r.slots ∙ ap (λ l. 0 ∷ l) same;
    unlocked = st.unlocked;
    base = ap (λ (v : Virtio). v.virtio_base) rings;
    notified = r.notified ∙ ap (λ l. 0 ∷ l) (w.notified ∙ ap (λ l. 0 ∷ l) st.quiet);
    heap = r.heap;
    queue = refl;
  }

  module _ (ok : IsBlock o.block) (apart : IsApart o.block) (frame : length o.stack ≡ 64)
      (empty : IsHeap o.block 0 first_heap) (xs : List Item)
      (aligned : virt_struct_block o.blob % 4 ≡ 0)
      (held : Holds o.blob (virt_struct_block o.blob) (tree_bytes xs))
      (tree : IsTree o.blob (virt_strings_block o.blob) xs) (full : IsDrive false xs)
      (enough : length (tree_bytes xs) ≤ fuel)
      (found : (find_device o.device s.backend.history).0 ≢ 0) where
    free :
        (reg : ℕ) (b b' : Backend)
        → Started o.block 5 reg o.device b b'
        → b'.driver.slots.used_request_index ≡ 0 ∷ cleared 11
    unfolding cleared
    free reg b b' st = ap (λ (d : BlockData). d.used_request_index) st.slots

    start_devices-Answered :
        (after : System) × (start_devices fuel o total_ram s ≡ some after) × Answered after
    start_devices-Answered =
        let four : page_total 16000 ≡ 4 = omega (arith, page_total_lem 16000) in
        let (k1, e1, h1) =
          kmalloc-IsHeap o.block ok 0 first_heap empty o.stack 16000 frame (omega (arith, four))
            (omega (arith, four)) in
        let h1' : IsHeap o.block 4 k1 = subst (λ t. IsHeap o.block t k1) (omega (arith, four)) h1 in
        let (k2, e2, h2) =
          kmalloc_page o.block ok 4 k1 h1' o.stack 48 frame (omega arith) (omega arith) in
        let drive_info = drive_of false xs o.drive_info in
        let e3 =
          get_drive_info-drive_of o.blob xs fuel o.drive_info aligned held tree full enough in
        let (b, e4, st) =
          init_virtio_backend-Started o.block ok apart o.stack frame o.device 5 (drive_info 0)
            (with_heap k2) (omega arith) h2 in
        elim st.outcome [
          | inl missing ↦ absurd (found missing.0)
          | inr there ↦
              let (k3, e5, h5) =
                kmalloc_page o.block ok 12 b.driver.heap there.3 o.stack 4 frame (omega arith)
                  (omega arith) in
              let d = record b.driver { heap = k3 } in
              let rest = cleared 11 in
              let (d1, e6, w, _) =
                block_write-Handed o.block ok o.stack frame 13 (omega arith) d h5 rest
                  (free (drive_info 0) (with_heap k2) b st) o.written 1000 (heap_va 12) 512 in
              let (d2, e7, r, _) =
                block_read-Handed o.block ok o.stack frame 15 (omega arith) d1 w.heap rest w.slots
                  o.read 1000 (heap_va 12) 512 in
              (
                devices (heap_va 0) (heap_va 12) (record b { driver = d2 }),
                start_devices_lem (heap_va 0) (heap_va 4) (heap_va 12) (d1.used.ring 0).len
                    (d2.used.ring 0).len k1 k2 k3 drive_info b d1 d2 e1 e2 e3 e4 e5 e6 e7,
                answered k2 k3 b d1 d2 (drive_info 0) (heap_va 0) (heap_va 12) rest st there.1 w r
                    refl,
              )
        ]

  kmain_lem :
      (s1 : System) (context : ℕ) (t : Tasks)
      → start_devices fuel o total_ram s ≡ some s1
      → start_tasks o.block o.stack o.sys_write o.uart_printf o.name1 o.user_process1 o.name2
          o.user_process2
          (record { heap = s1.backend.driver.heap; sched = s1.sched; contexts = s1.contexts })
        ≡ some (context, t)
      → kmain fuel o total_ram s
        ≡ some (
          context,
          record s1 {
            irq_masked = false;
            backend = record s1.backend { driver = record s1.backend.driver { heap = t.heap } };
            sched = t.sched;
            contexts = t.contexts;
          },
        )
  unfolding kmain
  kmain_lem s1 context t e1 e2 = rw (kmain, e1, e2) refl

  -- The kernel when the processor enters the first process.
  pub record Booted (context : ℕ) (after : System) : Type 0 where
    pub running : Running o.block 17 o.user_process1 o.user_process2 context (record {
      heap = after.backend.driver.heap;
      sched = after.sched;
      contexts = after.contexts;
    })
    pub unmasked : after.irq_masked ≡ false
    pub slots : after.backend.driver.slots.used_request_index ≡ cleared 12
    pub unlocked : after.backend.lock ≡ 0
    pub base : after.backend.virtio.virtio_base ≡ (find_device o.device s.backend.history).0
    pub notified : after.backend.driver.notified ≡ 0 ∷ 0 ∷ s.backend.driver.notified

  -- On an empty heap and an empty queue, with a device tree whose bytes the blob holds, a device
  -- found, and functions apart from the pages 19 and 22 of the heap, kmain returns the context of
  -- the first process: it runs, the second one waits, both with their code and stacks mapped, their
  -- interrupts on; the block device was asked twice, and its slots and its lock are free.
  pub kmain-Booted :
      IsBlock o.block
      → IsApart o.block
      → length o.stack ≡ 64
      → IsHeap o.block 0 first_heap
      → (xs : List Item) → virt_struct_block o.blob % 4 ≡ 0
      → Holds o.blob (virt_struct_block o.blob) (tree_bytes xs)
      → IsTree o.blob (virt_strings_block o.blob) xs
      → IsDrive false xs
      → length (tree_bytes xs) ≤ fuel
      → (find_device o.device s.backend.history).0 ≢ 0
      → IsEntry (o.user_process1 % 2 ^ 48) 19
      → IsEntry (o.user_process2 % 2 ^ 48) 22
      → s.sched.rq_tail ≡ 0
      → (context : ℕ) × (after : System) × (kmain fuel o total_ram s ≡ some (context, after))
        × Booted context after
  kmain-Booted ok apart frame empty xs aligned held tree full enough found ok1 ok2 idle =
      let (s1, e1, a) =
        start_devices-Answered ok apart frame empty xs aligned held tree full enough found in
      let t0 : Tasks = record {
        heap = s1.backend.driver.heap;
        sched = s1.sched;
        contexts = s1.contexts;
      } in
      let (context, t, e2, run) =
        start_tasks-Running o.block o.stack o.sys_write o.uart_printf o.name1 o.user_process1
          o.name2 o.user_process2 ok apart frame 17 (omega arith) ok1 ok2 t0 (a.queue ∙ idle)
          a.heap in
      (
        context,
        record s1 {
          irq_masked = false;
          backend = record s1.backend { driver = record s1.backend.driver { heap = t.heap } };
          sched = t.sched;
          contexts = t.contexts;
        },
        kmain_lem s1 context t e1 e2,
        record {
          running = run;
          unmasked = refl;
          slots = a.slots;
          unlocked = a.unlocked;
          base = a.base;
          notified = a.notified;
        },
      )
