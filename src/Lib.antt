-- ===== src/Lib.antt =====
-- The kernel of kernel_fuzzing, kernel/ of this repository: a small AArch64 kernel with a page
-- allocator, page tables, a heap, a round-robin scheduler and drivers; three of the earlier kernels
-- that it grew from; and the fuzzer in fuzzing/.
--
-- Parts. The page allocator (kernel/core/mmu.c) keeps one bit for each 4 KiB page. `kmalloc` takes
-- pages from it and enters them into the kernel's page tables, which `mmu_init` sets up. User
-- processes get tables of their own by `map_user_to_physical`. The scheduler (kernel/core/scheduler)
-- keeps the tasks in a linked ready queue and switches on timer ticks. `kmain` starts all of it: it
-- finds the block device in the device tree, sets up its driver over the heap, and makes two tasks.
-- Of the earlier kernels, kernel-interrupts/ counts timer interrupts, kernel-simple-scheduler/ lets
-- two programs take turns, and kernel-simple-mmu/ sets up page tables.
--
-- Files.
--   Base          shared types, tests and lemmas: Tests (Boolean comparisons, updates of functions),
--                 Lists, Members (membership, distinct lists), Bits (masks as divisions), Codes (the
--                 characters of a string).
--   PageAlloc     check_free, deallocate_mem, find_free, set_bitmap, allocate_mem, free_pages and
--                 bitindex_to_phys of kernel/core/mmu.c. `Buffer` is the bitmap of `AllocateMem`.
--                 Proofs: Bitmap (single bits), Search, Mark, Allocate, Prefix, Free.
--   PageTable     indices, descriptors and table writes of kernel/core/mmu.c. `Memory` is physical
--                 memory by words. Walk is the translation of the processor, from the ARM manual;
--                 Words and Path are lemmas on it. Init is `mmu_init`, with its proofs in
--                 Init/Laws; User proves the mapping of user pages, Process that of code and stack.
--   Kmalloc       `kmalloc` and `map_pagetable_entry`. `Kernel` is the tables, GlobalBitMapArray and
--                 ALLOCATED. Proofs: Mapping, Translate, Result, Laws, Maps, Limits, Boot, Pages.
--   Sched         sched.c, sched.h, context.h and timer.c of kernel/core/scheduler. Tasks live in a
--                 store by address, so a task that is both current and in the queue is one task.
--                 Proofs: Queue (the linked list as a list), Exchange (one task for another, for
--                 any length of a slice), Switch and Tick (one tick), Round (many ticks), Start
--                 (how the queue comes to be).
--   Uart          kernel/drivers/char/uart.c: the registers uart_init writes, and the characters
--                 that uart_putc, uart_puts, uint2str, int2str and uart_printf send. Proofs: Decimal,
--                 Signed, Format.
--   Block         kernel/drivers/block/block_driver.c with the structures of
--                 kernel/drivers/virtio_blk/virtio_blk.h: slots, descriptor chains, the available
--                 ring. `submit` is the common part of block_read and block_write up to the
--                 notification, `complete` what follows the answer of the device in the used ring,
--                 which is an argument. Backend is `init_virtio_backend`. Flight is several requests at once, as
--                 steps on the slots. Proofs: Slots, Chain, Release, Transfer, Reported (the
--                 length that comes back), Backend/Started, Backend/Found, Flight itself, Disk, with a device that serves one request at a time, and Unseen,
--                 two requests under way in the ring.
--   Spinlock      kernel/core/spinlock.c as steps of several processors. Proofs: Exclusion.
--   Virtio        kernel/drivers/virtio_blk/virtio_blk.c, and the search for the device in
--                 kernel/drivers/block/block_driver.c. The device is a parameter. Proofs: Handshake,
--                 Search.
--   Irq, Syscall  the dispatchers of kernel/core/handlers.c, and kernel/drivers/irq/gicv2.c. Proofs:
--                 Irq/Dispatch, and Syscall itself.
--   DeviceTree    kernel/core/dtd.c on memory by bytes: `rounds` is the loop over the tokens, a round
--                 of it total_ram_round or drive_round. Tree describes device trees by their items,
--                 with their bytes and what is to be found in them. Proofs: Reading, Items,
--                 TotalRam, DriveInfo.
--   Kmain         kernel/core/kmain.c: init_task, and `kmain` as start_devices and start_tasks, with
--                 what it finds outside it in the record Outside. Proofs: Task, Started, Booted.
--   User          kernel/core/kmain.c: user_process1, user_process2 and sys_write, whose `svc` comes
--                 to syscall_dispatcher by kernel/arch/aarch64/vectors.s. Proofs: Disk.
--   Fuzz          fuzzing/fuzz_nsim.c: do_op, runner, and the sequence that LLVMFuzzerTestOneInput
--                 builds for its two threads, which take turns in any order, with commands as data.
--                 Proofs: Sequence, Names, Commands, Order, Finish. Calls is the text of a command,
--                 as nsim_new, nsim_del, ip_add, ip_del, link_set, set_mtu and change_mac make it,
--                 with a reader of its own in Reader; proofs: Split, Words, Whole.
--   Interrupts    kernel-interrupts/: core/timer.c, core/kmain.c, drivers/irq/gicv2.c. Its UART
--                 driver is that of Uart. Proofs: Counting.
--   SimpleSched   kernel-simple-scheduler/: core/sched.c and core/kmain.c, over the queue of Sched and
--                 the devices of Interrupts. Proofs: Turns, Alternation, Started.
--   SimpleMmu     kernel-simple-mmu/core/mmu.c: mmu_init and the mapping of user pages, over the
--                 descriptors and table writes of PageTable. Proofs: Laws.
--   Tests         concrete inputs.
--
-- Conventions. A number is a natural number; where the C arithmetic can wrap, the remainder by the
-- power of 2 is written out. A write past the end of the caller's array is the result `none`. Two
-- symbols of the linker script and what the stack holds where `kmalloc` has its array are
-- parameters. Messages to the UART are left out of the other parts.
--
-- Fuel. `find_free` gets one more round than the bitmap has bits, which its loop cannot use up: each
-- round goes one bit on, and the loop ends behind the last one. The loops over a device tree, and
-- over a name in it, get fuel; the bytes of the tree's items are enough for both, since each round
-- and each character takes one of them at least. All other loops count down the number of rounds
-- that the C loop makes, or the room in its buffer, or the list they run over.
--
-- Not modelled: assembly, among it all of kernel-boot-minimal, scripts and images; of
-- kernel-simple-mmu what is the text of kernel/, its kmalloc, whose tables stand at another
-- address, and its kmain; the endless loops of the user processes; of the fuzzer the effect of the
-- system calls, the check for root and failures of malloc. block_read and block_write run with the
-- lock free, and the bytes of buffers, the requests, the descriptors and the rings are kept apart,
-- so a buffer on one of their pages is outside the model; for several requests at a time only the
-- slots and the available ring are followed, and what the device writes to buffers only in
-- Block/Disk and User/Disk, where it is a parameter that does what the virtio standard says.
pub mod Base
pub mod DeviceTree
pub mod PageAlloc
pub mod PageTable
pub mod Kmain
pub mod Kmalloc
pub mod Sched
pub mod Uart
pub mod Irq
pub mod Spinlock
pub mod Virtio
pub mod Block
pub mod Syscall
pub mod User
pub mod Fuzz
pub mod Interrupts
pub mod SimpleSched
pub mod SimpleMmu
pub mod Tests
