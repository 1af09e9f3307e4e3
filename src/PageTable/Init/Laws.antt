-- ===== src/PageTable/Init/Laws.antt =====
-- What `mmu_init` of kernel/core/mmu.c maps.
use kernel_fuzzing.Base.{
  ℕ, ◌+◌, ◌*◌, ◌/◌, ◌%◌, ◌^◌, ◌≤◌, ◌<◌, ◌≡◌, refl, bit_and, bit_or, some, arith, ◌∙◌, ap, update,
}
use kernel_fuzzing.Base.Bits.{bit_and_low, bit_or_kernel}
use kernel_fuzzing.PageTable.{
  Memory, l0_base_phys, l1_base_phys, l2_base_phys, calc_index_l0, calc_index_l1, calc_index_l2,
  make_table_desc, make_block_desc, set_table_entry, user_process_1_table_start,
  user_process_1_table_start_writable,
}
use kernel_fuzzing.PageTable.Words.{calc_index_l2_lem, make_block_desc_lem}
use kernel_fuzzing.PageTable.Walk.{walk, walk_l1, walk_l2}
use kernel_fuzzing.PageTable.Init.{
  phys_kernel_base, virt_kernel_base, phys_region_2_base, virt_region_2_base, dtb_base,
  virt_dtb_base, virtual_gicd_base, gicd_base, SystemRegisters, init_tables, mmu_init, clear_tables,
  init_registers,
}

-- The linker script puts the block into the first 2 MiB of the kernel.
abbrev pub IsInImage : ℕ → Type 0
IsInImage block = (phys_kernel_base ≤ block) × (block < phys_kernel_base + 0x200000)

block_index :
    (block : ℕ)
    → IsInImage block
    → calc_index_l2 (bit_or 0xFFFF000000000000 (bit_and block 0x0000FFFFFFFFFFFF + 512 * 0)) ≡ 0
block_index block h = rw (bit_and_low 48 block) (
    ground (
      arith,
      bit_or_kernel (block % 2 ^ 48 + 512 * 0),
      calc_index_l2_lem (bit_or 0xFFFF000000000000 (block % 2 ^ 48 + 512 * 0)),
    ))

block_desc :
    (block : ℕ)
    → IsInImage block
    → make_block_desc (bit_and block 0x0000FFFFFFFFFFFF + 512 * 0) ≡ block / 4096 * 4096 + 0x401
block_desc block h =
    rw (bit_and_low 48 block) (ground (arith, make_block_desc_lem (block % 2 ^ 48 + 512 * 0)))

-- The entries of the three tables, with the level 2 index of each block of 2 MiB.
pub init_tables_entry :
    (block : ℕ) (m : Memory)
    → IsInImage block
    → let t = init_tables block m in
      (t l0_base_phys ≡ l1_base_phys + 3)
      × (t (l1_base_phys + 16) ≡ l2_base_phys + 3)
      × (t l2_base_phys ≡ block / 4096 * 4096 + 0x401)
      × (t (l2_base_phys + 8 * 18) ≡ phys_region_2_base + 0x401)
      × (t (l2_base_phys + 8 * 5) ≡ user_process_1_table_start + 0x401)
      × (t (l2_base_phys + 8 * 10) ≡ gicd_base + 0x401)
      × (t (l2_base_phys + 8 * 42) ≡ dtb_base + 0x401)
unfolding init_tables set_table_entry update calc_index_l0 calc_index_l1 make_table_desc
    make_block_desc
init_tables_entry block m h =
    rw (init_tables, block_index block h, block_desc block h)
      (unfold calc_index_l2 in (refl, refl, refl, refl, refl, refl, refl))

walk_block :
    (m : Memory) (va desc : ℕ)
    → m l0_base_phys ≡ l1_base_phys + 3
    → m (l1_base_phys + 16) ≡ l2_base_phys + 3
    → va / 2 ^ 39 % 512 ≡ 0
    → va / 2 ^ 30 % 512 ≡ 2
    → m (l2_base_phys + 8 * (va / 2 ^ 21 % 512)) ≡ desc
    → desc % 4096 ≡ 0x401
    → desc < 2 ^ 48
    → walk m l0_base_phys va ≡ some (desc / 2 ^ 21 * 2 ^ 21 + va % 2 ^ 21)
unfolding walk walk_l1 walk_l2
walk_block m va desc e0 e1 i0 i1 e2 attributes small = ground arith

pub walk_block_of_entry :
    (m : Memory) (va pa desc index : ℕ)
    → m l0_base_phys ≡ l1_base_phys + 3
    → m (l1_base_phys + 16) ≡ l2_base_phys + 3
    → va % 2 ^ 48 ≡ 2 ^ 31 + index * 2 ^ 21
    → index < 512
    → m (l2_base_phys + 8 * index) ≡ desc
    → desc % 4096 ≡ 0x401
    → desc < 2 ^ 48
    → pa ≡ desc / 2 ^ 21 * 2 ^ 21
    → (off : ℕ) → off < 2 ^ 21
    → walk m l0_base_phys (va + off) ≡ some (pa + off)
walk_block_of_entry m va pa desc index e0 e1 at lt e2 attributes small base off inside =
    let here : (va + off) / 2 ^ 21 % 512 ≡ index = omega arith in
    walk_block m (va + off) desc e0 e1 (omega arith) (omega arith) (rw here e2) attributes small
    ∙ ap some (omega arith)

-- After `mmu_init` the kernel's image is mapped to itself and under its high address, and the
-- UART, the first user table, the interrupt distributor and the device tree blob under the
-- addresses that the drivers use, 2 MiB each, whatever the memory held before. The table registers
-- hold the table of level 0.
pub walk-mmu_init :
    (block : ℕ) (m : Memory) (r : SystemRegisters)
    → IsInImage block
    → (off : ℕ) → off < 2 ^ 21
    → let (t, r') = mmu_init block m r in
      (walk t l0_base_phys (phys_kernel_base + off) ≡ some (phys_kernel_base + off))
      × (walk t l0_base_phys (virt_kernel_base + off) ≡ some (phys_kernel_base + off))
      × (walk t l0_base_phys (virt_region_2_base + off) ≡ some (phys_region_2_base + off))
      × (walk t l0_base_phys (user_process_1_table_start_writable + off)
          ≡ some (user_process_1_table_start + off))
      × (walk t l0_base_phys (virtual_gicd_base + off) ≡ some (gicd_base + off))
      × (walk t l0_base_phys (virt_dtb_base + off) ≡ some (dtb_base + off))
      × (r'.ttbr0_el1 ≡ l0_base_phys)
      × (r'.ttbr1_el1 ≡ l0_base_phys)
unfolding mmu_init init_registers
walk-mmu_init block m r h off small =
    let (e0, e1, kernel, uart, user, gicd, dtb) = init_tables_entry block (clear_tables m) h in
    let maps = λ (va pa desc index : ℕ).
      walk_block_of_entry (init_tables block (clear_tables m)) va pa desc index e0 e1 in
    (
      maps _ _ _ 0 refl (omega arith) kernel (omega arith) (omega arith) (omega arith) off small,
      maps _ _ _ 0 refl (omega arith) kernel (omega arith) (omega arith) (omega arith) off small,
      maps _ _ _ 18 refl (omega arith) uart refl (omega arith) refl off small,
      maps _ _ _ 5 refl (omega arith) user refl (omega arith) refl off small,
      maps _ _ _ 10 refl (omega arith) gicd refl (omega arith) refl off small,
      maps _ _ _ 42 refl (omega arith) dtb refl (omega arith) refl off small,
      refl,
      refl,
    )
