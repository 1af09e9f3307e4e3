-- ===== src/SimpleMmu.antt =====
-- The tables of the kernel of kernel-simple-mmu/: `mmu_init`, `map_user_to_physical` and
-- `map_user_to_physical_test` of core/mmu.c, with the indices and descriptors of kernel/. The code
-- reaches a table by its physical address.
pub mod Laws
use kernel_fuzzing.Base.{ℕ, ◌+◌}
use kernel_fuzzing.PageTable.{
  Memory, add64, l0_base_phys, l1_base_phys, l2_base_phys, l3_index0_base_phys, calc_index_l0,
  calc_index_l1, calc_index_l2, calc_index_l3, make_table_desc, make_block_desc, make_l3_block_desc,
  set_table_entry, clear_table, table_start,
}
use kernel_fuzzing.PageTable.Init.{
  phys_kernel_base, virt_kernel_base, phys_region_2_base, virt_region_2_base, virtual_gicd_base,
  gicd_base, stack_top, SystemRegisters, init_registers,
}

abbrev pub l2_index3_base_phys : ℕ
l2_index3_base_phys = 0x80070000

pub clear_tables : Memory → Memory
clear_tables m = clear_table l3_index0_base_phys (
    clear_table l2_index3_base_phys
      (clear_table l2_base_phys (clear_table l1_base_phys (clear_table l0_base_phys m))))

pub init_tables : Memory → Memory
init_tables m =
    let m =
      set_table_entry m l0_base_phys (calc_index_l0 virt_kernel_base)
        (make_table_desc l1_base_phys) in
    let m =
      set_table_entry m l0_base_phys (calc_index_l0 phys_kernel_base)
        (make_table_desc l1_base_phys) in
    let m =
      set_table_entry m l1_base_phys (calc_index_l1 virt_kernel_base)
        (make_table_desc l2_base_phys) in
    let m =
      set_table_entry m l1_base_phys (calc_index_l1 phys_kernel_base)
        (make_table_desc l2_base_phys) in
    let m =
      set_table_entry m l2_base_phys (calc_index_l2 virt_kernel_base)
        (make_block_desc phys_kernel_base) in
    let m =
      set_table_entry m l2_base_phys (calc_index_l2 phys_kernel_base)
        (make_block_desc phys_kernel_base) in
    let m =
      set_table_entry m l2_base_phys (calc_index_l2 virt_region_2_base)
        (make_block_desc phys_region_2_base) in
    let m =
      set_table_entry m l2_base_phys (calc_index_l2 virtual_gicd_base)
        (make_block_desc gicd_base) in
    set_table_entry m l2_base_phys (calc_index_l2 stack_top) (make_block_desc stack_top)

-- The registers are those of kernel/.
unfoldable pub mmu_init : Memory → SystemRegisters → Memory × SystemRegisters
mmu_init m r = (init_tables (clear_tables m), init_registers r)

unfoldable pub map_user_to_physical : Memory → (id address : ℕ) → Memory
map_user_to_physical m id address =
    let l0 = table_start id in
    let l1 = add64 l0 0x10000 in
    let l2 = add64 l1 0x10000 in
    let l3 = add64 l2 0x10000 in
    let m = set_table_entry m l0 (calc_index_l0 address) (make_table_desc l1) in
    let m = set_table_entry m l1 (calc_index_l1 address) (make_table_desc l2) in
    let m = set_table_entry m l2 (calc_index_l2 address) (make_table_desc l3) in
    set_table_entry m l3 (calc_index_l3 address) (make_l3_block_desc address)

-- The text of the function is that of `map_user_to_physical`.
unfoldable pub map_user_to_physical_test : Memory → (id address : ℕ) → Memory
map_user_to_physical_test m id address =
    let l0 = table_start id in
    let l1 = add64 l0 0x10000 in
    let l2 = add64 l1 0x10000 in
    let l3 = add64 l2 0x10000 in
    let m = set_table_entry m l0 (calc_index_l0 address) (make_table_desc l1) in
    let m = set_table_entry m l1 (calc_index_l1 address) (make_table_desc l2) in
    let m = set_table_entry m l2 (calc_index_l2 address) (make_table_desc l3) in
    set_table_entry m l3 (calc_index_l3 address) (make_l3_block_desc address)
