-- ===== src/SimpleMmu/Laws.antt =====
-- What the tables of kernel-simple-mmu/core/mmu.c map.
use kernel_fuzzing.Base.{
  ℕ, ◌+◌, ◌*◌, ◌/◌, ◌%◌, ◌^◌, ◌≤◌, ◌<◌, ◌≡◌, ◌∙◌, refl, ap, some, arith, ◌⊎◌, update,
}
use kernel_fuzzing.PageTable.{
  Memory, add64, physical, table_start, table_start_writable, l0_base_phys, l1_base_phys,
  l2_base_phys, calc_index_l0, calc_index_l1, calc_index_l2, calc_index_l3, make_l3_block_desc,
  make_table_desc, make_block_desc, set_table_entry, map_user_page, map_user_tables,
}
use kernel_fuzzing.PageTable
use kernel_fuzzing.PageTable.Words.{calc_index_l3_lem}
use kernel_fuzzing.PageTable.Walk.{walk}
use kernel_fuzzing.PageTable.User.{
  map_user_tables_lem, Leads-same, Leads-map_user_page, l3_table, map_user_page_lem, walk_of_Leads,
}
use kernel_fuzzing.PageTable.Init.{
  phys_kernel_base, virt_kernel_base, phys_region_2_base, virt_region_2_base, virtual_gicd_base,
  gicd_base, stack_top, SystemRegisters, init_registers,
}
use kernel_fuzzing.PageTable.Init.Laws.{walk_block_of_entry}
use kernel_fuzzing.SimpleMmu.{
  clear_tables, init_tables, mmu_init, map_user_to_physical, map_user_to_physical_test,
}

init_tables_entry :
    (m : Memory)
    → let t = init_tables m in
      (t l0_base_phys ≡ l1_base_phys + 3)
      × (t (l1_base_phys + 16) ≡ l2_base_phys + 3)
      × (t l2_base_phys ≡ stack_top + 0x401)
      × (t (l2_base_phys + 8 * 18) ≡ phys_region_2_base + 0x401)
      × (t (l2_base_phys + 8 * 10) ≡ gicd_base + 0x401)
unfolding init_tables set_table_entry update calc_index_l0 calc_index_l1 calc_index_l2
    make_table_desc make_block_desc
init_tables_entry m = (refl, refl, refl, refl, refl)

-- After `mmu_init` of kernel-simple-mmu/, whatever the memory held before, the kernel's first 2 MiB
-- are mapped to themselves and under the high address, by the block that `stack_top` names, which
-- stands in them; so are the UART and the interrupt distributor under the drivers' addresses. Both
-- table registers hold the table of level 0.
pub walk-mmu_init_simple :
    (m : Memory) (r : SystemRegisters) (off : ℕ)
    → off < 2 ^ 21
    → let (t, r') = mmu_init m r in
      (walk t l0_base_phys (phys_kernel_base + off) ≡ some (phys_kernel_base + off))
      × (walk t l0_base_phys (virt_kernel_base + off) ≡ some (phys_kernel_base + off))
      × (walk t l0_base_phys (virt_region_2_base + off) ≡ some (phys_region_2_base + off))
      × (walk t l0_base_phys (virtual_gicd_base + off) ≡ some (gicd_base + off))
      × (r'.ttbr0_el1 ≡ l0_base_phys)
      × (r'.ttbr1_el1 ≡ l0_base_phys)
unfolding mmu_init init_registers
walk-mmu_init_simple m r off small =
    let (e0, e1, kernel, uart, gicd) = init_tables_entry (clear_tables m) in
    let maps = λ (va pa desc index : ℕ).
      walk_block_of_entry (init_tables (clear_tables m)) va pa desc index e0 e1 in
    (
      maps _ _ _ 0 refl (omega arith) kernel refl (omega arith) refl off small,
      maps _ _ _ 0 refl (omega arith) kernel refl (omega arith) refl off small,
      maps _ _ _ 18 refl (omega arith) uart refl (omega arith) refl off small,
      maps _ _ _ 10 refl (omega arith) gicd refl (omega arith) refl off small,
      refl,
      refl,
    )

-- Two pointers with the same low 48 bits reach the same table.
set_table_entry_low :
    (m : Memory) (t u idx desc : ℕ)
    → t % 2 ^ 48 ≡ u % 2 ^ 48
    → set_table_entry m t idx desc ≡ set_table_entry m u idx desc
unfolding set_table_entry
set_table_entry_low m t u idx desc e = ap (λ a. update m a desc) (omega (arith, e))

table_start_low : (id : ℕ) → table_start id % 2 ^ 48 ≡ table_start_writable id % 2 ^ 48
table_start_low id = ground arith

map_user_to_physical_lem :
    (m : Memory) (id address : ℕ)
    → map_user_to_physical m id address ≡ PageTable.map_user_to_physical_test m id address
unfolding map_user_to_physical PageTable.map_user_to_physical_test map_user_page map_user_tables
map_user_to_physical_lem m id address =
    let low = table_start_low id in
    let l1 = add64 (table_start id) 0x10000 in
    let l2 = add64 l1 0x10000 in
    let l3 = add64 l2 0x10000 in
    let l1_w = add64 (table_start_writable id) 0x10000 in
    let l2_w = add64 l1_w 0x10000 in
    let l3_w = add64 (table_start_writable id) 0x30000 in
    let at =
      λ (m : Memory) (t u i d : ℕ) (e : t % 2 ^ 48 ≡ u % 2 ^ 48). set_table_entry_low m t u i d e in
    rw
      (
        at m (table_start id) (table_start_writable id) (calc_index_l0 address) (make_table_desc l1)
            low,
        at _ l1 l1_w (calc_index_l1 address) (make_table_desc l2) (omega (arith, low)),
        at _ l2 l2_w (calc_index_l2 address) (make_table_desc l3) (omega (arith, low)),
        at _ l3 l3_w (calc_index_l3 address) (make_l3_block_desc address) (omega (arith, low)),
      )
      refl

map_user_to_physical_test_lem :
    (m : Memory) (id address : ℕ)
    → map_user_to_physical_test m id address ≡ PageTable.map_user_to_physical_test m id address
map_user_to_physical_test_lem m id address =
    unfold map_user_to_physical map_user_to_physical_test in map_user_to_physical_lem m id address

walk_test :
    (m : Memory) (id address va : ℕ)
    → address < 2 ^ 48
    → va / 4096 ≡ address / 4096
    → walk (PageTable.map_user_to_physical_test m id address) (table_start id) va ≡ some va
unfolding PageTable.map_user_to_physical_test
walk_test m id address va small same =
    let t = map_user_tables m id address in
    walk_of_Leads _ id va (va / 4096) (omega arith)
      (Leads-map_user_page t id address va (omega arith)
        (Leads-same m id address va (omega (arith, same))))
      (map_user_page_lem t id address (l3_table id + 8 * (va / 2 ^ 12 % 512)) (omega arith)
        ∙ ground (arith, same))
    ∙ ap some (omega arith)

-- The words outside the four tables of a process, of 4096 bytes each.
abbrev pub IsOutside : (start w : ℕ) → Type 0
IsOutside start w =
    ((w < start) ⊎ (start + 0x1000 ≤ w))
    × ((w < start + 0x10000) ⊎ (start + 0x11000 ≤ w))
    × ((w < start + 0x20000) ⊎ (start + 0x21000 ≤ w))
    × ((w < start + 0x30000) ⊎ (start + 0x31000 ≤ w))

test_outside :
    (m : Memory) (id address w : ℕ)
    → IsOutside (table_start id) w
    → PageTable.map_user_to_physical_test m id address w ≡ m w
unfolding PageTable.map_user_to_physical_test map_user_page set_table_entry update
test_outside m id address w (h0, h1, h2, h3) =
    ground (arith, calc_index_l3_lem address, map_user_tables_lem m id address w)

-- Both functions of kernel-simple-mmu/ write what `map_user_to_physical_test` of kernel/ writes:
-- every address of the page translates to itself in the tables of the process, and nothing is
-- written outside the four tables.
pub map_user_to_physical_later :
    (m : Memory) (id address : ℕ)
    → address < 2 ^ 48
    → let later = PageTable.map_user_to_physical_test m id address in
      (map_user_to_physical m id address ≡ later)
      × (map_user_to_physical_test m id address ≡ later)
      × ((va : ℕ) → va / 4096 ≡ address / 4096 → walk later (table_start id) va ≡ some va)
      × ((w : ℕ) → IsOutside (table_start id) w → later w ≡ m w)
map_user_to_physical_later m id address small = (
  map_user_to_physical_lem m id address,
  map_user_to_physical_test_lem m id address,
  (λ va same. walk_test m id address va small same),
  (λ w h. test_outside m id address w h),
)
