-- ===== src/Kmalloc/Mapping.antt =====
-- The table writes of `map_pagetable_entry` of kernel/core/mmu.c, word by word, for the first 512
-- pages: these share the first table of level 3.
use kernel_fuzzing.Base.{
  ℕ, zero, suc, ◌+◌, ◌-◌, ◌*◌, ◌%◌, ◌^◌, ◌≤◌, ◌<◌, ◌≡◌, ◌⊎◌, refl, ◌∙◌, ◌&&◌, arith, update, ◌==◌,
  leb, ltb, if◌then◌else◌, bit_and,
}
use kernel_fuzzing.Base.Bits.{bit_and_low, bit_or_kernel}
use kernel_fuzzing.PageTable.{
  Memory, add64, set_table_entry, clear_words, clear_table, l0_base_phys, l1_base_phys,
  l2_index3_base_phys, l3_index0_base_phys, calc_index_l2, calc_index_l3, make_table_desc,
  calc_index_l1,
}
use kernel_fuzzing.PageTable.Words.{
  calc_index_l2_lem, calc_index_l3_lem, make_table_desc_lem, make_l3_block_desc_lem,
}
use kernel_fuzzing.Kmalloc.{first_tables, map_page, map_pages, kernel_bits}

-- The block is on a page and apart from the tables at fixed addresses.
pub record IsBlock (block : ℕ) : Type 0 where
  pub aligned : block % 4096 ≡ 0
  pub small : block + 8192 < 2 ^ 48
  pub apart_l0 : (block + 8192 ≤ l0_base_phys) ⊎ (l0_base_phys + 4096 ≤ block)
  pub apart_l1 : (block + 8192 ≤ l1_base_phys) ⊎ (l1_base_phys + 4096 ≤ block)
  pub apart_l2 : (block + 8192 ≤ l2_index3_base_phys) ⊎ (l2_index3_base_phys + 4096 ≤ block)

abbrev pub heap_pa : ℕ → ℕ
heap_pa p = 0xC0000000 + 4096 * p

abbrev pub heap_va : ℕ → ℕ
heap_va p = kernel_bits + heap_pa p

module _ (block : ℕ) (ok : IsBlock block) where
  open ok use {aligned, small, apart_l0, apart_l1, apart_l2}

  l2_index : (p : ℕ) → p < 512 → calc_index_l2 (heap_va p) ≡ 0
  l2_index p h = omega (arith, calc_index_l2_lem (heap_va p))

  l3_index : (p : ℕ) → p < 512 → calc_index_l3 (heap_va p) ≡ p
  l3_index p h = omega (arith, calc_index_l3_lem (heap_va p))

  l3_table : add64 (bit_and block 0x0000FFFFFFFFFFFF) (512 * 0) ≡ block
  l3_table = rw (bit_and_low 48 block) (omega arith)

  pub map_page_lem :
      (m : Memory) (p w : ℕ)
      → p < 512
      → map_page block m (heap_va p) (heap_pa p) w ≡ (
          if w == block + 8 * p
          then heap_pa p + 0x443
          else if w == l2_index3_base_phys
          then block + 3
          else m w)
  unfolding map_page set_table_entry update
  map_page_lem m p w h =
      rw (map_page, l2_index p h, l3_index p h, l3_table)
        (ground (
          arith,
          bit_or_kernel block,
          make_table_desc_lem block,
          make_l3_block_desc_lem (heap_pa p),
        ))

  -- The word at `w` after the rounds for the pages `p + i` to `p + i + left - 1`.
  pub map_pages_lem :
      (left i : ℕ) (m : Memory) (p w : ℕ)
      → p + (i + left) ≤ 512
      → map_pages block left i m (heap_va p) (heap_pa p) w ≡ (
          if leb (block + 8 * (p + i)) w && ltb w (block + 8 * (p + (i + left))) && (w % 8 == 0)
          then 0xC0000443 + 512 * (w - block)
          else if (w == l2_index3_base_phys) && ltb 0 left
          then block + 3
          else m w)
  unfolding map_pages
  map_pages_lem zero i m p w h = ground arith
  map_pages_lem (suc left) i m p w h =
      let va : add64 (heap_va p) (4096 * i) ≡ heap_va (p + i) = omega arith in
      let pa : add64 (heap_pa p) (4096 * i) ≡ heap_pa (p + i) = omega arith in
      map_pages_lem left (i + 1)
        (map_page block m (add64 (heap_va p) (4096 * i)) (add64 (heap_pa p) (4096 * i))) p w
        (omega arith)
      ∙ rw (va, pa) (ground (arith, map_page_lem m (p + i) w))

clear_words_frame :
    (left i tbl : ℕ) (m : Memory) (w : ℕ)
    → tbl + 8 * (i + left) ≤ 2 ^ 48
    → (w < tbl + 8 * i) ⊎ (tbl + 8 * (i + left) ≤ w)
    → clear_words left i tbl m w ≡ m w
unfolding clear_words
clear_words_frame zero i tbl m w small h = refl
clear_words_frame (suc left) i tbl m w small h =
    clear_words_frame left (i + 1) tbl (set_table_entry m tbl i 0) w (omega arith) (omega arith)
    ∙ unfold set_table_entry update in ground arith

module _ (block : ℕ) (ok : IsBlock block) (m : Memory) where
  open ok use {aligned, small, apart_l0, apart_l1, apart_l2}

  pub first_tables_l1 : first_tables block m (l1_base_phys + 24) ≡ l2_index3_base_phys + 3
  unfolding first_tables set_table_entry update calc_index_l1 make_table_desc
  first_tables_l1 = ground arith

  -- Words above the fixed tables and apart from the block stay.
  pub first_tables_frame :
      (w : ℕ)
      → l3_index0_base_phys + 4096 ≤ w
      → (w < block) ⊎ (block + 8192 ≤ w)
      → first_tables block m w ≡ m w
  unfolding first_tables clear_table
  first_tables_frame w above h =
      let cleared = clear_words 640 0 block m in
      set_l1 (clear_words 512 0 l3_index0_base_phys cleared)
      ∙ clear_words_frame 512 0 l3_index0_base_phys cleared w (omega arith) (omega arith)
      ∙ clear_words_frame 640 0 block m w (omega arith) (omega arith)
    where
      set_l1 :
          (t : Memory)
          → set_table_entry t l1_base_phys
              (calc_index_l1 0xffff0000C0000000)
              (make_table_desc l2_index3_base_phys)
              w
            ≡ t w
      set_l1 t = unfold set_table_entry update calc_index_l1 in ground arith

  pub first_tables_l0 : first_tables block m l0_base_phys ≡ m l0_base_phys
  unfolding first_tables clear_table
  first_tables_l0 =
      let cleared = clear_words 640 0 block m in
      set_l1 (clear_words 512 0 l3_index0_base_phys cleared)
      ∙ clear_words_frame 512 0 l3_index0_base_phys cleared l0_base_phys (omega arith) (omega arith)
      ∙ clear_words_frame 640 0 block m l0_base_phys (omega arith) (omega arith)
    where
      set_l1 :
          (t : Memory)
          → set_table_entry t l1_base_phys
              (calc_index_l1 0xffff0000C0000000)
              (make_table_desc l2_index3_base_phys)
              l0_base_phys
            ≡ t l0_base_phys
      set_l1 t = unfold set_table_entry update calc_index_l1 in ground arith

  -- The entry of level 1 for the kernel's image and the drivers stays.
  pub first_tables_kernel : first_tables block m (l1_base_phys + 16) ≡ m (l1_base_phys + 16)
  unfolding first_tables clear_table
  first_tables_kernel =
      let cleared = clear_words 640 0 block m in
      set_l1 (clear_words 512 0 l3_index0_base_phys cleared)
      ∙ clear_words_frame 512 0 l3_index0_base_phys cleared (l1_base_phys + 16) (omega arith)
          (omega arith)
      ∙ clear_words_frame 640 0 block m (l1_base_phys + 16) (omega arith) (omega arith)
    where
      set_l1 :
          (t : Memory)
          → set_table_entry t l1_base_phys
              (calc_index_l1 0xffff0000C0000000)
              (make_table_desc l2_index3_base_phys)
              (l1_base_phys + 16)
            ≡ t (l1_base_phys + 16)
      set_l1 t = unfold set_table_entry update calc_index_l1 in ground arith
