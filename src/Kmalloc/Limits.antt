-- ===== src/Kmalloc/Limits.antt =====
-- Where `kmalloc` of kernel/core/mmu.c goes beyond what it can map.
use kernel_fuzzing.Base.{
  ℕ, ◌+◌, ◌*◌, ◌<◌, ◌≡◌, ◌∙◌, true, some, arith, List, length, update, ◌==◌, if◌then◌else◌,
}
use kernel_fuzzing.PageAlloc.{Buffer, BitIndex, page_total}
use kernel_fuzzing.PageAlloc.Prefix.{allocate_mem-IsPrefix}
use kernel_fuzzing.Base.Bits.{bit_and_low, bit_or_kernel}
use kernel_fuzzing.PageTable.{
  Memory, set_table_entry, calc_index_l1, calc_index_l2, calc_index_l3, l0_base_phys, l1_base_phys,
  l2_index3_base_phys,
}
use kernel_fuzzing.PageTable.Words.{make_table_desc_lem, make_l3_block_desc_lem}
use kernel_fuzzing.PageTable.Walk.{walk}
use kernel_fuzzing.Kmalloc.Translate.{walk_heap_page}
use kernel_fuzzing.Kmalloc.{Kernel, kmalloc, map_pagetable_entry, map_pages, map_page}
use kernel_fuzzing.Kmalloc.Laws.{IsHeap}
use kernel_fuzzing.Kmalloc.Mapping.{heap_va, heap_pa, IsBlock}
use kernel_fuzzing.Kmalloc.Result.{kmalloc_returns}

module _ (block : ℕ) (ok : IsBlock block) where
  page_512 :
      (m : Memory) (w : ℕ)
      → map_page block m (heap_va 512) (heap_pa 512) w ≡ (
          if w == block + 512
          then heap_pa 512 + 0x443
          else if w == l2_index3_base_phys + 8
          then block + 3
          else m w)
  unfolding map_page set_table_entry update calc_index_l2 calc_index_l3
  page_512 m w =
      rw (map_page, bit_and_low 48 block)
        (ground (
          arith,
          ok.aligned,
          ok.small,
          bit_or_kernel (block + 512),
          make_table_desc_lem (block + 512),
          make_l3_block_desc_lem (heap_pa 512),
        ))

  page_512_entries :
      (k : Kernel)
      → IsHeap block 512 k
      → let m = map_page block k.memory (heap_va 512) (heap_pa 512) in
        (m l0_base_phys ≡ l1_base_phys + 3)
        × (m (l1_base_phys + 24) ≡ l2_index3_base_phys + 3)
        × (m (l2_index3_base_phys + 8 * 0) ≡ block + 3)
        × (m (l2_index3_base_phys + 8 * 1) ≡ block + 3)
        × (m (block + 8 * 0) ≡ heap_pa 0 + 0x443)
        × (m (block + 8 * 64) ≡ heap_pa 512 + 0x443)
  page_512_entries k heap =
      let used : k.allocated ≡ true = ground (arith, heap.fresh) in
      let s0 = ok.apart_l0 in
      let s1 = ok.apart_l1 in
      let s2 = ok.apart_l2 in
      (
        page_512 k.memory l0_base_phys ∙ ground (arith, heap.at_l0),
        page_512 k.memory (l1_base_phys + 24) ∙ ground (arith, heap.at_l1 used),
        page_512 k.memory (l2_index3_base_phys + 8 * 0) ∙ ground (arith, heap.at_l2),
        page_512 k.memory (l2_index3_base_phys + 8 * 1) ∙ ground arith,
        page_512 k.memory (block + 8 * 0) ∙ ground (arith, heap.at_l3 0),
        page_512 k.memory (block + 8 * 64) ∙ ground arith,
      )

  one_more :
      (k : Kernel) (bitmap : Buffer)
      → k.allocated ≡ true
      → (map_pagetable_entry block (record k { bitmap = bitmap }) (heap_va 512) (heap_pa 512) 1).1
        ≡ record {
          memory = map_page block k.memory (heap_va 512) (heap_pa 512);
          bitmap = bitmap;
          allocated = true;
        }
  unfolding map_pagetable_entry map_pages calc_index_l1
  one_more k bitmap e = ground arith

  -- When the first 512 pages are in use, the next one breaks the heap: `kmalloc` returns the
  -- address of page 512, which translates to page 0, and the address of page 64 from now on
  -- translates to page 512. The tables of level 3 stand 512 bytes apart and not 4096.
  pub kmalloc_page_512 :
      (k : Kernel) (stack : List BitIndex) (size off : ℕ)
      → IsHeap block 512 k
      → length stack ≡ 64
      → page_total size ≡ 1
      → off < 4096
      → (k' : Kernel) × (kmalloc block stack k size ≡ some (heap_va 512, k'))
        × (walk k'.memory l0_base_phys (heap_va 512 + off) ≡ some (heap_pa 0 + off))
        × (walk k'.memory l0_base_phys (heap_va 64 + off) ≡ some (heap_pa 512 + off))
  kmalloc_page_512 k stack size off heap frame one small =
      let (bitmap, e, pages, _) =
        allocate_mem-IsPrefix k.bitmap 512 size stack heap.bytes heap.pages (omega arith)
          (omega arith) in
      let used : k.allocated ≡ true = ground (arith, heap.fresh) in
      let at = page_512_entries k heap in
      (
        (map_pagetable_entry block (record k { bitmap = bitmap }) (heap_va 512) (heap_pa 512)
            (page_total size)).1,
        kmalloc_returns block 512 k stack size bitmap (omega arith) (omega arith) (omega arith) e,
        rw (one, one_more k bitmap used)
            (walk_heap_page block ok 512 0 1 0 off _ (omega arith) (omega arith) (omega arith) small
              at.0 at.1 at.3 at.4),
        rw (one, one_more k bitmap used)
            (walk_heap_page block ok 64 512 0 64 off _ (omega arith) (omega arith) (omega arith)
              small at.0 at.1 at.2 at.5),
      )
