-- ===== src/PageTable.antt =====
-- The page tables of kernel/core/mmu.c: indices, descriptors and the writes to the tables.
-- Physical memory is a function from the address of an aligned 64-bit word to the word. The code
-- reaches a table by its physical address or by that address under 0xFFFF000000000000; `mmu_init`
-- maps both to the same place, so a pointer stands for its low 48 bits.
pub mod Words
pub mod Walk
pub mod Path
pub mod Init
pub mod User
pub mod Process
use kernel_fuzzing.Base.{
  ℕ, zero, suc, ◌+◌, ◌*◌, ◌/◌, ◌%◌, ◌^◌, bit_and, bit_or, Bool, true, false, update, ◌==◌,
  if◌then◌else◌,
}

abbrev pub Memory : Type 0
Memory = ℕ → ℕ

abbrev pub physical : ℕ → ℕ
physical pointer = pointer % 2 ^ 48

-- `x >> k` and `x << k` on `uint64_t`, and its addition.
abbrev pub shr : ℕ → ℕ → ℕ
shr x k = x / 2 ^ k

abbrev pub shl : ℕ → ℕ → ℕ
shl x k = x * 2 ^ k % 2 ^ 64

abbrev pub add64 : ℕ → ℕ → ℕ
add64 a b = (a + b) % 2 ^ 64

abbrev pub page_mask : ℕ
page_mask = 0xFFFFFFFFFFFFF000

abbrev pub l0_base_phys : ℕ
l0_base_phys = 0x80020000

abbrev pub l1_base_phys : ℕ
l1_base_phys = 0x80040000

abbrev pub l2_base_phys : ℕ
l2_base_phys = 0x80060000

abbrev pub l2_index3_base_phys : ℕ
l2_index3_base_phys = 0x80080000

abbrev pub l3_index0_base_phys : ℕ
l3_index0_base_phys = 0x800C0000

abbrev pub desc_valid : ℕ
desc_valid = 1

abbrev pub desc_table : ℕ
desc_table = 2

abbrev pub desc_page : ℕ
desc_page = 2

abbrev pub desc_af : ℕ
desc_af = 2 ^ 10

abbrev pub desc_ap : ℕ
desc_ap = 2 ^ 6

unfoldable pub calc_index_l0 : ℕ → ℕ
calc_index_l0 va = bit_and (shr va 39) 0x1FF

unfoldable pub calc_index_l1 : ℕ → ℕ
calc_index_l1 va = bit_and (shr va 30) 0x1FF

unfoldable pub calc_index_l2 : ℕ → ℕ
calc_index_l2 va = bit_and (shr va 21) 0x1FF

unfoldable pub calc_index_l3 : ℕ → ℕ
calc_index_l3 va = bit_and (shr va 12) 0x1FF

unfoldable pub make_table_desc : ℕ → ℕ
make_table_desc next_table_phys_base =
    bit_or (shl (shr (bit_and next_table_phys_base page_mask) 12) 12) (bit_or desc_valid desc_table)

unfoldable pub convert_to_physical : ℕ → ℕ
convert_to_physical add = bit_and 0x0000ffffffffffff add

unfoldable pub kernal_to_user_space : ℕ → ℕ
kernal_to_user_space virtual_kernel_address = bit_and virtual_kernel_address 0x0000FFFFFFFFFFFF

unfoldable pub make_l3_block_desc : ℕ → ℕ
make_l3_block_desc phys_base =
    bit_or (bit_and (shl phys_base 0) page_mask)
      (bit_or (bit_or (bit_or desc_valid desc_page) desc_af) desc_ap)

unfoldable pub make_block_desc : ℕ → ℕ
make_block_desc phys_base =
    bit_or (shl (shr (bit_and phys_base page_mask) 12) 12) (bit_or desc_valid desc_af)

pub make_page_entry : ℕ → ℕ
make_page_entry physical_base =
    bit_or (shl (shr (bit_and physical_base page_mask) 12) 12) (bit_or desc_valid desc_table)

-- `table[idx] = desc`
unfoldable pub set_table_entry : Memory → ℕ → ℕ → ℕ → Memory
set_table_entry m table idx desc = update m (physical (add64 table (8 * idx))) desc

-- `for (i = 0; i < n; i++) tbl[i] = 0`, counted by the rounds left.
unfoldable pub clear_words : (left i : ℕ) → ℕ → Memory → Memory
clear_words zero i tbl m = m
clear_words (suc left) i tbl m = clear_words left (i + 1) tbl (set_table_entry m tbl i 0)

unfoldable pub clear_table : ℕ → Memory → Memory
unfolding clear_words
clear_table table_phys_base m = clear_words 512 0 table_phys_base m

abbrev pub virtio_reg_range : ℕ
virtio_reg_range = 0xffff000086400000

unfoldable pub add_virtio_page : Memory → ℕ → Memory
add_virtio_page m reg =
    set_table_entry m l2_base_phys (calc_index_l2 virtio_reg_range) (make_block_desc reg)

abbrev pub user_process_1_table_start : ℕ
user_process_1_table_start = 0x80A00000

abbrev pub user_process_2_table_start : ℕ
user_process_2_table_start = user_process_1_table_start + 0x00060000

abbrev pub user_process_1_table_start_writable : ℕ
user_process_1_table_start_writable = 0xFFFF000080A00000

abbrev pub user_process_2_table_start_writable : ℕ
user_process_2_table_start_writable = user_process_1_table_start_writable + 0x00060000

abbrev pub table_start : ℕ → ℕ
table_start id = if id == 1 then user_process_1_table_start else user_process_2_table_start

abbrev pub table_start_writable : ℕ → ℕ
table_start_writable id =
    if id == 1 then user_process_1_table_start_writable else user_process_2_table_start_writable

-- The writes to the tables of level 0, 1 and 2 that both mapping functions begin with.
unfoldable pub map_user_tables : Memory → (id address : ℕ) → Memory
map_user_tables m id address =
    let l0 = table_start id in
    let l0_w = table_start_writable id in
    let l1 = add64 l0 0x10000 in
    let l2 = add64 l1 0x10000 in
    let l3 = add64 l2 0x10000 in
    let l1_w = add64 l0_w 0x10000 in
    let l2_w = add64 l1_w 0x10000 in
    let m0 = set_table_entry m l0_w (calc_index_l0 address) (make_table_desc l1) in
    let m1 = set_table_entry m0 l1_w (calc_index_l1 address) (make_table_desc l2) in
    set_table_entry m1 l2_w (calc_index_l2 address) (make_table_desc l3)

-- One write to the table of level 3.
unfoldable pub map_user_page : Memory → (id address : ℕ) → Memory
map_user_page m id address =
    set_table_entry m (add64 (table_start_writable id) 0x30000) (calc_index_l3 address)
      (make_l3_block_desc address)

unfoldable pub map_user_pages : (left i : ℕ) → Memory → (id address : ℕ) → Memory
map_user_pages zero i m id address = m
map_user_pages (suc left) i m id address =
    map_user_pages left (i + 1) (map_user_page m id (add64 address (4096 * i))) id address

unfoldable pub map_user_to_physical : Memory → (id address : ℕ) → Memory
map_user_to_physical m id address = map_user_pages 10 0 (map_user_tables m id address) id address

unfoldable pub map_user_to_physical_test : Memory → (id address : ℕ) → Memory
map_user_to_physical_test m id address = map_user_page (map_user_tables m id address) id address
