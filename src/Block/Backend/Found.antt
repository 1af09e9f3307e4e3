-- ===== src/Block/Backend/Found.antt =====
-- Which device `init_virtio_backend` of kernel/drivers/block/block_driver.c starts, and where its
-- registers are mapped.
use kernel_fuzzing.Base.{
  ℕ, ◌+◌, ◌*◌, ◌/◌, ◌^◌, ◌≤◌, ◌<◌, ◌≡◌, ◌∙◌, some, List, length, arith, inl, inr,
}
use kernel_fuzzing.PageAlloc.{BitIndex}
use kernel_fuzzing.PageTable.{l0_base_phys, l1_base_phys, l2_base_phys, virtio_reg_range}
use kernel_fuzzing.PageTable.Words.{make_block_desc_lem}
use kernel_fuzzing.PageTable.Walk.{walk}
use kernel_fuzzing.PageTable.Init.Laws.{walk_block_of_entry}
use kernel_fuzzing.Kmalloc.Mapping.{IsBlock}
use kernel_fuzzing.Kmalloc.Laws.{IsHeap}
use kernel_fuzzing.Kmalloc.Pages.{IsApart}
use kernel_fuzzing.Virtio.{Device, find_device}
use kernel_fuzzing.Virtio.Search.{Search, find_device-Search}
use kernel_fuzzing.Block.Backend.{Backend, init_virtio_backend}
use kernel_fuzzing.Block.Backend.Started.{Started, Outcome, init_virtio_backend-Started}

Outcome-l0 :
    (block n : ℕ) (device : Device) (b b' : Backend)
    → Outcome block n device b b'
    → b'.driver.heap.memory l0_base_phys ≡ l1_base_phys + 3
Outcome-l0 block n device b b' (inl (_, _, _, heap)) = heap.at_l0
Outcome-l0 block n device b b' (inr (_, _, _, heap)) = heap.at_l0

-- On a heap with room for seven pages, with the table of level 2 for the drivers in its place and
-- the address of the registers below 2 ^ 48, init_virtio_backend frees all twelve slots and the lock,
-- keeps the addresses of its structures and maps the 2 MiB block of the registers. It looks at the
-- 32 places in order, at magic value, version and id, and starts the first device that answers them,
-- with its rings on pages of their own, by their physical addresses; with no such device it stops
-- there.
pub init_virtio_backend_found :
    (block : ℕ)
    → IsBlock block
    → IsApart block
    → (stack : List BitIndex) → length stack ≡ 64
    → (device : Device) (n reg : ℕ) (b : Backend) → n + 7 ≤ 512
    → IsHeap block n b.driver.heap
    → b.driver.heap.memory (l1_base_phys + 16) ≡ l2_base_phys + 3
    → reg < 2 ^ 48
    → (b' : Backend) × (init_virtio_backend block stack device reg b ≡ some b')
      × Started block n reg device b b'
      × Search device b.history (find_device device b.history)
      × ((off : ℕ)
          → off < 2 ^ 21
          → walk b'.driver.heap.memory l0_base_phys (virtio_reg_range + off)
            ≡ some (reg / 2 ^ 21 * 2 ^ 21 + off))
init_virtio_backend_found block ok apart stack frame device n reg b room heap table small =
    let (b', e, st) =
      init_virtio_backend-Started block ok apart stack frame device n reg b room heap in
    let entry = st.entry ∙ make_block_desc_lem reg (omega (arith, small)) in
    (
      b',
      e,
      st,
      find_device-Search device b.history,
      λ off inside.
          walk_block_of_entry b'.driver.heap.memory virtio_reg_range (reg / 2 ^ 21 * 2 ^ 21)
            (reg / 4096 * 4096 + 0x401) 50 (Outcome-l0 block n device b b' st.outcome)
            (st.level1 ∙ table) (omega arith) (omega arith) entry (omega arith)
            (omega (arith, small)) (omega arith) off inside,
    )
