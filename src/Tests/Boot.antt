-- ===== src/Tests/Boot.antt =====
-- The start of the kernel at concrete inputs: two functions in the image, a device that answers as a
-- block device of version 2 at the first place.
use kernel_fuzzing.Base.{
  ◌^◌, ◌<◌, ℕ, ◌+◌, ◌≡◌, refl, inl, inr, true, some, [], ◌==◌, if◌then◌else◌, arith,
}
use kernel_fuzzing.PageTable.{virtio_reg_range, l0_base_phys, l1_base_phys, l2_base_phys}
use kernel_fuzzing.Kmalloc.{init_bitmap}
use kernel_fuzzing.Kmalloc.Pages.{IsApart}
use kernel_fuzzing.DeviceTree.{byte_at, virt_struct_block, virt_strings_block, load_u32, bswap32}
use kernel_fuzzing.DeviceTree.Tree.{tree_bytes}
use kernel_fuzzing.Virtio.{Device, find_device, probe, check_virtio_driver, read_u32}
use kernel_fuzzing.Block.Backend.{Backend, init_virtio_backend}
use kernel_fuzzing.Block.Backend.Started.{Started}
use kernel_fuzzing.Block.Backend.Found.{init_virtio_backend_found}
use kernel_fuzzing.Virtio.Search.{Search}
use kernel_fuzzing.PageTable.Walk.{walk}
use kernel_fuzzing.PageTable.Init.{mmu_init, clear_tables}
use kernel_fuzzing.PageTable.Init.Laws.{init_tables_entry}
use kernel_fuzzing.Kmain.{Outside, System, kmain}
use kernel_fuzzing.Kmain.Booted.{Booted, kmain-Booted}
use kernel_fuzzing.Tests.Tables.{block, blank}
use kernel_fuzzing.Tests.Heap.{booted, stack, block-IsBlock, booted-IsHeap}
use kernel_fuzzing.Tests.Tasks.{idle}
use kernel_fuzzing.Tests.Devices.{driver, answering}
use kernel_fuzzing.Tests.Blob.{drive_tree, drive_memory, holds, holds-Holds}

block-IsApart : IsApart block
block-IsApart = record { apart_users = inl (omega arith); apart_blocks = inr (omega arith) }

abbrev block_device : Device
block_device h address =
    if address == virtio_reg_range
    then 0x74726976
    else if address == virtio_reg_range + 4
    then 2
    else if address == virtio_reg_range + 8
    then 2
    else 0

abbrev backend : Backend
backend = record {
  driver = driver;
  lock = 5;
  global_virtio_address = [];
  virtio = record {
    virtio_base = 0;
    virtual_virtq_desc = 0;
    virtual_virtq_avail = 0;
    virtual_virtq_used = 0;
    physical_virtq_desc = 0;
    physical_virtq_avail = 0;
    physical_virtq_used = 0;
  };
  history = [];
}

drivers_table : booted.memory (l1_base_phys + 16) ≡ l2_base_phys + 3
unfolding mmu_init
drivers_table = (init_tables_entry block (clear_tables blank) (omega arith, omega arith)).1

init_virtio_backend_found_example :
    (b' : Backend) × (init_virtio_backend block stack block_device 0xa000000 backend ≡ some b')
    × Started block 0 0xa000000 block_device backend b'
    × Search block_device [] (find_device block_device [])
    × ((off : ℕ)
        → off < 2 ^ 21
        → walk b'.driver.heap.memory l0_base_phys (virtio_reg_range + off) ≡ some (0xa000000 + off))
init_virtio_backend_found_example =
    init_virtio_backend_found block block-IsBlock block-IsApart stack refl block_device 0 0xa000000
      backend (omega arith) booted-IsHeap drivers_table (omega arith)

abbrev surroundings : Outside
surroundings = record {
  block = block;
  stack = stack;
  sys_write = 0x80001F38;
  uart_printf = 0x80002000;
  name1 = 7;
  user_process1 = 0xFFFF000080140123;
  name2 = 8;
  user_process2 = 0xFFFF000080150000;
  block_memory_start = 0x80200000;
  buffer_at = λ a i. 0;
  blob = drive_memory;
  drive_info = λ i. 0;
  device = block_device;
  written = answering 1;
  read = answering 513;
}

abbrev machine : System
machine = record {
  uart = λ i. 0;
  gic = [];
  irq_masked = true;
  bytes = λ i. 0;
  backend = backend;
  sched = idle;
  contexts = λ c. record { sp_el0 = 0; elr_el1 = 0; spsr_el1 = 0; ttbr0_el1 = 0 };
}

first_place : (find_device block_device []).0 ≡ virtio_reg_range
unfolding find_device probe check_virtio_driver read_u32
first_place = refl

kmain_example :
    (context : ℕ) × (after : System) × (kmain 300 surroundings 0x100000000 machine
      ≡ some (context, after))
    × Booted 300 surroundings 0x100000000 machine context after
unfolding init_bitmap holds byte_at virt_struct_block virt_strings_block load_u32 bswap32
kmain_example =
    kmain-Booted 300 surroundings 0x100000000 machine block-IsBlock block-IsApart refl booted-IsHeap
      drive_tree refl
      (holds-Holds drive_memory (virt_struct_block drive_memory) (tree_bytes drive_tree) refl)
      (ground arith) (ground arith) (omega arith) (λ e. ground (arith, first_place))
      (omega arith, omega arith, inl (omega arith)) (omega arith, omega arith, inl (omega arith))
      refl
