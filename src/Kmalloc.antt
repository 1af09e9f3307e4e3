-- ===== src/Kmalloc.antt =====
-- `kmalloc` and `map_pagetable_entry` of kernel/core/mmu.c: from pages of the bitmap to mapped
-- kernel addresses. The start of the block for the tables of level 3, a symbol of the linker
-- script, is the parameter `block`.
pub mod Mapping
pub mod Translate
pub mod Result
pub mod Laws
pub mod Maps
pub mod Limits
pub mod Boot
pub mod Pages
use kernel_fuzzing.Base.{
  ℕ, zero, suc, ◌+◌, ◌*◌, bit_and, bit_or, Bool, true, false, Option, none, some, List, [], ◌∷◌,
  ltb, ◌==◌, not, if◌then◌else◌, length, get_elem?,
}
use kernel_fuzzing.PageAlloc.{Buffer, BitIndex, no_page, allocate_mem, bitindex_to_phys, page_total}
use kernel_fuzzing.PageTable.{
  Memory, add64, l1_base_phys, l2_index3_base_phys, l3_index0_base_phys, calc_index_l1,
  calc_index_l2, calc_index_l3, make_table_desc, make_l3_block_desc, set_table_entry, clear_words,
  clear_table,
}

-- The memory of the tables, `GlobalBitMapArray` and `ALLOCATED`.
pub record Kernel : Type 0 where
  pub memory : Memory
  pub bitmap : Buffer
  pub allocated : Bool

-- The buffer is what the memory at the bitmap's address holds.
unfoldable pub init_bitmap : Buffer → Kernel → Kernel
init_bitmap buffer k = record k { bitmap = buffer }

abbrev pub kernel_bits : ℕ
kernel_bits = 0xFFFF000000000000

-- The first call clears the block, 512 * 10 bytes that are 640 words, and the unused table, and
-- enters the table of level 2 into that of level 1.
pub first_tables : (block : ℕ) → Memory → Memory
first_tables block m =
    let m = clear_words 640 0 block m in
    let m = clear_table l3_index0_base_phys m in
    set_table_entry m l1_base_phys (calc_index_l1 0xffff0000C0000000)
      (make_table_desc l2_index3_base_phys)

-- One round of the loop of `map_pagetable_entry`.
pub map_page : (block : ℕ) → Memory → (va pa : ℕ) → Memory
map_page block m va pa =
    let l2_idx = calc_index_l2 va in
    let l3_table_address = add64 (bit_and block 0x0000FFFFFFFFFFFF) (512 * l2_idx) in
    let l3_table_address_writable = bit_or kernel_bits l3_table_address in
    let m =
      set_table_entry m (bit_or kernel_bits l2_index3_base_phys) l2_idx
        (make_table_desc l3_table_address) in
    set_table_entry m l3_table_address_writable (calc_index_l3 va) (make_l3_block_desc pa)

pub map_pages : (block : ℕ) (left i : ℕ) → Memory → (va pa : ℕ) → Memory
map_pages block zero i m va pa = m
map_pages block (suc left) i m va pa =
    map_pages block left (i + 1) (map_page block m (add64 va (4096 * i)) (add64 pa (4096 * i))) va
      pa

pub map_pagetable_entry : (block : ℕ) → Kernel → (va pa total : ℕ) → Bool × Kernel
map_pagetable_entry block k va pa total =
    if ltb 20 total
    then (false, k)
    else if not (calc_index_l1 0xffff0000C0000000 == 3)
    then (false, k)
    else (let m = if k.allocated then k.memory else first_tables block k.memory in
        (true, record k { memory = map_pages block total 0 m va pa; allocated = true }))

-- What the stack holds where `kmalloc` puts its array of 64 entries comes as an argument. `none` is
-- a write past the array. The result of `map_pagetable_entry` is dropped.
pub kmalloc : (block : ℕ) (stack : List BitIndex) → Kernel → ℕ → Option (ℕ × Kernel)
kmalloc block stack k size = elim (allocate_mem k.bitmap size stack) [
  | none ↦ none
  | some (total_allocated, bitmap, res) ↦ elim (get_elem? res 0) [
    | none ↦ none
    | some current ↦
        let pa = bitindex_to_phys current in
        let va = bit_or pa kernel_bits in
        some
          (va, (map_pagetable_entry block (record k { bitmap = bitmap }) va pa total_allocated).1)
  ]
]
