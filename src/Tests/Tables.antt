-- ===== src/Tests/Tables.antt =====
-- The page tables of kernel/core/mmu.c at concrete addresses.
use kernel_fuzzing.Base.{ℕ, ◌+◌, ◌*◌, ◌/◌, ◌%◌, ◌≡◌, some, arith}
use kernel_fuzzing.PageTable.{
  Memory, table_start, l0_base_phys, map_user_to_physical, map_user_to_physical_test,
  user_process_1_table_start, user_process_1_table_start_writable,
}
use kernel_fuzzing.PageTable.Walk.{walk}
use kernel_fuzzing.PageTable.Init.{
  SystemRegisters, mmu_init, phys_kernel_base, virt_kernel_base, phys_region_2_base,
  virt_region_2_base, virtual_gicd_base, gicd_base, virt_dtb_base, dtb_base,
}
use kernel_fuzzing.PageTable.Init.Laws.{walk-mmu_init}
use kernel_fuzzing.PageTable.User.{walk-map_user_to_physical, map_user_to_physical_alias}

abbrev pub blank : Memory
blank w = 0

abbrev pub reset_registers : SystemRegisters
reset_registers = record { mair_el1 = 0; tcr_el1 = 0; ttbr1_el1 = 0; ttbr0_el1 = 0; sctlr_el1 = 0 }

abbrev pub block : ℕ
block = 0x80100000

-- The UART's data register, and the others at the same offset.
walk-mmu_init_example :
    let (t, r') = mmu_init block blank reset_registers in
    (walk t l0_base_phys (phys_kernel_base + 0x1000) ≡ some (phys_kernel_base + 0x1000))
    × (walk t l0_base_phys (virt_kernel_base + 0x1000) ≡ some (phys_kernel_base + 0x1000))
    × (walk t l0_base_phys (virt_region_2_base + 0x1000) ≡ some (phys_region_2_base + 0x1000))
    × (walk t l0_base_phys (user_process_1_table_start_writable + 0x1000)
        ≡ some (user_process_1_table_start + 0x1000))
    × (walk t l0_base_phys (virtual_gicd_base + 0x1000) ≡ some (gicd_base + 0x1000))
    × (walk t l0_base_phys (virt_dtb_base + 0x1000) ≡ some (dtb_base + 0x1000))
    × (r'.ttbr0_el1 ≡ l0_base_phys)
    × (r'.ttbr1_el1 ≡ l0_base_phys)
walk-mmu_init_example =
    walk-mmu_init block blank reset_registers (omega arith, omega arith) 0x1000 (omega arith)

walk-map_user_to_physical_example :
    walk (map_user_to_physical blank 1 0x80123456) (table_start 1) 0x80125008 ≡ some 0x80125008
walk-map_user_to_physical_example =
    walk-map_user_to_physical blank 1 0x80123456 0x80125008 (omega arith) (omega arith)
      (omega arith) (omega arith)

map_user_to_physical_alias_example :
    walk
      (map_user_to_physical_test (map_user_to_physical blank 1 0x80123456) 1 0xC0123000)
      (table_start 1)
      0x80123456
    ≡ some (0xC0123000 / 4096 * 4096 + 0x80123456 % 4096)
map_user_to_physical_alias_example =
    map_user_to_physical_alias blank 1 0x80123456 0xC0123000 0x80123456 (omega arith) (omega arith)
      (omega arith) (omega arith) (omega arith) (omega arith)
