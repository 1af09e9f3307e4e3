-- ===== src/PageTable/Init.antt =====
-- `mmu_init` of kernel/core/mmu.c: the kernel's own tables and the system registers. The start of
-- the block for kmalloc's tables, a symbol of the linker script, is a parameter.
pub mod Laws
use kernel_fuzzing.Base.{ℕ, ◌+◌, ◌*◌, bit_and, bit_or}
use kernel_fuzzing.PageTable.{
  Memory, shl, l0_base_phys, l1_base_phys, l2_base_phys, l2_index3_base_phys, l3_index0_base_phys,
  calc_index_l0, calc_index_l1, calc_index_l2, make_table_desc, make_block_desc, set_table_entry,
  clear_table, user_process_1_table_start, user_process_1_table_start_writable,
}

abbrev pub phys_kernel_base : ℕ
phys_kernel_base = 0x0000000080000000

abbrev pub virt_kernel_base : ℕ
virt_kernel_base = 0xffff000080000000

abbrev pub phys_region_2_base : ℕ
phys_region_2_base = 0x0000000009000000

abbrev pub virt_region_2_base : ℕ
virt_region_2_base = 0xffff000082400000

abbrev pub dtb_base : ℕ
dtb_base = 0x40000000

abbrev pub virt_dtb_base : ℕ
virt_dtb_base = 0xffff000085400000

abbrev pub stack_top : ℕ
stack_top = 0x00000000801F0000

-- kernel/drivers/irq/gicv2.h
abbrev pub virtual_gicd_base : ℕ
virtual_gicd_base = 0xffff000081400000

abbrev pub gicd_base : ℕ
gicd_base = 0x0000000008000000

pub record SystemRegisters : Type 0 where
  pub mair_el1 : ℕ
  pub tcr_el1 : ℕ
  pub ttbr1_el1 : ℕ
  pub ttbr0_el1 : ℕ
  pub sctlr_el1 : ℕ

-- The five calls of `clear_table`.
pub clear_tables : Memory → Memory
clear_tables m = clear_table l3_index0_base_phys (
    clear_table l2_index3_base_phys
      (clear_table l2_base_phys (clear_table l1_base_phys (clear_table l0_base_phys m))))

-- `block` is `__block_l2_memory_start`.
pub init_tables : (block : ℕ) → Memory → Memory
init_tables block m =
    let l3_table_address = bit_and block 0x0000FFFFFFFFFFFF + 512 * 0 in
    let l3_table_address_writable = bit_or 0xFFFF000000000000 l3_table_address in
    let m =
      set_table_entry m l0_base_phys (calc_index_l0 virt_kernel_base)
        (make_table_desc l1_base_phys) in
    let m =
      set_table_entry m l0_base_phys (calc_index_l0 phys_kernel_base)
        (make_table_desc l1_base_phys) in
    let m =
      set_table_entry m l1_base_phys (calc_index_l1 virt_kernel_base)
        (make_table_desc l2_base_phys) in
    let m =
      set_table_entry m l1_base_phys (calc_index_l1 phys_kernel_base)
        (make_table_desc l2_base_phys) in
    let m =
      set_table_entry m l2_base_phys (calc_index_l2 virt_kernel_base)
        (make_block_desc phys_kernel_base) in
    let m =
      set_table_entry m l2_base_phys (calc_index_l2 phys_kernel_base)
        (make_block_desc phys_kernel_base) in
    let m =
      set_table_entry m l2_base_phys (calc_index_l2 virt_region_2_base)
        (make_block_desc phys_region_2_base) in
    let m =
      set_table_entry m l2_base_phys (calc_index_l2 user_process_1_table_start_writable)
        (make_block_desc user_process_1_table_start) in
    let m =
      set_table_entry m l2_base_phys (calc_index_l2 virtual_gicd_base)
        (make_block_desc gicd_base) in
    let m =
      set_table_entry m l2_base_phys (calc_index_l2 virt_dtb_base) (make_block_desc dtb_base) in
    let m = set_table_entry m l2_base_phys (calc_index_l2 stack_top) (make_block_desc stack_top) in
    set_table_entry m l2_base_phys (calc_index_l2 l3_table_address_writable)
      (make_block_desc l3_table_address)

pub tcr_value : ℕ
tcr_value =
    let tcr = bit_or 0 (shl 16 0) in
    let tcr = bit_or tcr (shl 16 16) in
    let tcr = bit_or tcr (shl 0 14) in
    let tcr = bit_or tcr (shl 2 30) in
    let tcr = bit_or tcr (shl 3 12) in
    let tcr = bit_or tcr (shl 3 28) in
    let tcr = bit_or tcr (shl 1 10) in
    let tcr = bit_or tcr (shl 1 8) in
    let tcr = bit_or tcr (shl 1 26) in let tcr = bit_or tcr (shl 1 24) in bit_or tcr (shl 5 32)

-- The assembly writes `ttbr1` to both table registers.
unfoldable pub init_registers : SystemRegisters → SystemRegisters
init_registers r = record {
  mair_el1 = bit_or (shl 0x00 0) (shl 0xFF 8);
  tcr_el1 = tcr_value;
  ttbr1_el1 = l0_base_phys;
  ttbr0_el1 = l0_base_phys;
  sctlr_el1 = bit_or (bit_or (bit_or r.sctlr_el1 (shl 1 0)) (shl 1 2)) (shl 1 12);
}

unfoldable pub mmu_init : (block : ℕ) → Memory → SystemRegisters → Memory × SystemRegisters
mmu_init block m r = (init_tables block (clear_tables m), init_registers r)
