-- ===== src/Kmalloc/Translate.antt =====
-- Translations through the tables that `map_pagetable_entry` of kernel/core/mmu.c writes.
use kernel_fuzzing.Base.{ℕ, ◌+◌, ◌*◌, ◌/◌, ◌%◌, ◌^◌, ◌<◌, ◌≡◌, ◌∙◌, some, arith, ap}
use kernel_fuzzing.PageTable.{Memory, l0_base_phys, l1_base_phys, l2_index3_base_phys}
use kernel_fuzzing.PageTable.Walk.{walk}
use kernel_fuzzing.PageTable.Path.{walk_page}
use kernel_fuzzing.Kmalloc.Mapping.{IsBlock, heap_va, heap_pa}

module _ (block : ℕ) (ok : IsBlock block) where
  -- The translation of page `p` of the heap, which has level 2 index `i` and level 3 index `j`; the entry there names page `q`.
  pub walk_heap_page :
      (p q i j off : ℕ) (m : Memory)
      → p ≡ 512 * i + j
      → i < 2
      → (j < 512) × (q < 131088)
      → off < 4096
      → m l0_base_phys ≡ l1_base_phys + 3
      → m (l1_base_phys + 24) ≡ l2_index3_base_phys + 3
      → m (l2_index3_base_phys + 8 * i) ≡ block + 3
      → m (block + 8 * j) ≡ heap_pa q + 0x443
      → walk m l0_base_phys (heap_va p + off) ≡ some (heap_pa q + off)
  walk_heap_page p q i j off m e low range small d0 d1 d2 d3 =
      let i0 : (heap_va p + off) / 2 ^ 39 % 512 ≡ 0 = omega arith in
      let i1 : (heap_va p + off) / 2 ^ 30 % 512 ≡ 3 = omega arith in
      let i2 : (heap_va p + off) / 2 ^ 21 % 512 ≡ i = omega arith in
      let i3 : (heap_va p + off) / 2 ^ 12 % 512 ≡ j = omega arith in
      walk_page m (heap_va p + off) (0xC0000 + q) (omega arith) l0_base_phys l1_base_phys
        l2_index3_base_phys block (omega arith) (omega arith) (omega (arith, ok.aligned, ok.small))
        (rw i0 d0) (rw i1 d1) (rw i2 d2) (rw i3 (d3 ∙ omega arith))
      ∙ ap some (omega arith)
