-- ===== src/Kmalloc/Laws.antt =====
-- What callers of `kmalloc` of kernel/core/mmu.c may rely on, up to the 512 pages, 2 MiB, that one
-- table of level 3 holds.
use kernel_fuzzing.Base.{
  ℕ, ◌+◌, ◌*◌, ◌≤◌, ◌<◌, ◌≡◌, ◌∙◌, ap, true, false, some, arith, List, if◌then◌else◌, length,
}
use kernel_fuzzing.PageAlloc.{Buffer, BitIndex, page_total}
use kernel_fuzzing.PageAlloc.Bitmap.{IsBytes}
use kernel_fuzzing.PageAlloc.Allocate.{page_total_lem}
use kernel_fuzzing.PageAlloc.Prefix.{IsPrefix, allocate_mem-IsPrefix}
use kernel_fuzzing.PageTable.{
  Memory, calc_index_l1, l0_base_phys, l1_base_phys, l2_index3_base_phys,
}
use kernel_fuzzing.PageTable.Walk.{walk}
use kernel_fuzzing.Kmalloc.Translate.{walk_heap_page}
use kernel_fuzzing.Kmalloc.{Kernel, kmalloc, map_pages, map_pagetable_entry, first_tables}
use kernel_fuzzing.Kmalloc.Result.{kmalloc_returns}
use kernel_fuzzing.Kmalloc.Mapping.{
  IsBlock, heap_pa, heap_va, map_pages_lem, first_tables_l0, first_tables_l1,
}

-- The first `n` pages are in use and mapped.
pub record IsHeap (block n : ℕ) (k : Kernel) : Type 0 where
  pub bytes : IsBytes k.bitmap
  pub pages : IsPrefix k.bitmap n
  pub fits : n ≤ 512
  pub fresh : k.allocated ≡ false → n ≡ 0
  pub at_l0 : k.memory l0_base_phys ≡ l1_base_phys + 3
  pub at_l1 : k.allocated ≡ true → k.memory (l1_base_phys + 24) ≡ l2_index3_base_phys + 3
  pub at_l2 : 0 < n → k.memory l2_index3_base_phys ≡ block + 3
  pub at_l3 : (q : ℕ) → q < n → k.memory (block + 8 * q) ≡ heap_pa q + 0x443

abbrev pub ready : (block : ℕ) → Kernel → Memory
ready block k = if k.allocated then k.memory else first_tables block k.memory

module _ (block : ℕ) (ok : IsBlock block) (n : ℕ) (k : Kernel) (heap : IsHeap block n k) where
  -- Every page of the heap translates to its physical page.
  pub walk-IsHeap :
      (q off : ℕ)
      → q < n
      → off < 4096
      → walk k.memory l0_base_phys (heap_va q + off) ≡ some (heap_pa q + off)
  walk-IsHeap q off lt small =
      let used : k.allocated ≡ true = ground (arith, heap.fresh) in
      walk_heap_page block ok q q 0 q off k.memory (omega arith) (omega arith)
        (omega (arith, heap.fits)) small heap.at_l0 (heap.at_l1 used) (heap.at_l2 (omega arith))
        (heap.at_l3 q lt)

  ready_l0 : ready block k l0_base_phys ≡ l1_base_phys + 3
  ready_l0 = ground (arith, heap.at_l0, first_tables_l0 block ok k.memory)

  ready_l1 : ready block k (l1_base_phys + 24) ≡ l2_index3_base_phys + 3
  ready_l1 = ground (arith, heap.at_l1, first_tables_l1 block ok k.memory)

  ready_l3 : (q : ℕ) → q < n → ready block k (block + 8 * q) ≡ heap_pa q + 0x443
  ready_l3 q h = ground (arith, heap.fresh, heap.at_l3 q)

  module _ (total : ℕ) (bitmap : Buffer) (few : total ≤ 20) where
    mapped_lem :
        (map_pagetable_entry block (record k { bitmap = bitmap }) (heap_va n) (heap_pa n) total).1
        ≡ record {
          memory = map_pages block total 0 (ready block k) (heap_va n) (heap_pa n);
          bitmap = bitmap;
          allocated = true;
        }
    unfolding map_pagetable_entry calc_index_l1
    mapped_lem = ground arith

    mapped :
        0 < total
        → n + total ≤ 512
        → IsBytes bitmap
        → IsPrefix bitmap (n + total)
        → IsHeap block
            (n + total)
            (map_pagetable_entry block
              (record k { bitmap = bitmap })
              (heap_va n)
              (heap_pa n)
              total).1
    mapped some_pages room bytes pages =
        let word = λ (w : ℕ). map_pages_lem block ok total 0 (ready block k) n w (omega arith) in
        let s0 = ok.apart_l0 in
        let s1 = ok.apart_l1 in
        let s2 = ok.apart_l2 in
        rw mapped_lem (record {
          bytes = bytes;
          pages = pages;
          fits = room;
          fresh = λ e. cc;
          at_l0 = word l0_base_phys ∙ ground (arith, ready_l0);
          at_l1 = λ e. word (l1_base_phys + 24) ∙ ground (arith, ready_l1);
          at_l2 = λ h. word l2_index3_base_phys ∙ ground arith;
          at_l3 = λ q h. word (block + 8 * q) ∙ ground (arith, ready_l3 q);
        })

  -- The result of `kmalloc` with the tables that it leaves.
  pub kmalloc_tables :
      (stack : List BitIndex) (size : ℕ)
      → length stack ≡ 64
      → page_total size ≤ 20
      → n + page_total size ≤ 512
      → (k' : Kernel) × (kmalloc block stack k size ≡ some (heap_va n, k'))
        × IsHeap block (n + page_total size) k'
        × (k'.memory ≡ map_pages block (page_total size) 0 (ready block k) (heap_va n) (heap_pa n))
  kmalloc_tables stack size frame few room =
      let total = page_total size in
      let pos : 0 < total = (page_total_lem size).1 in
      let (bitmap, e, pages, bytes) =
        allocate_mem-IsPrefix k.bitmap n size stack heap.bytes heap.pages (omega arith)
          (omega arith) in
      (
        (map_pagetable_entry block (record k { bitmap = bitmap }) (heap_va n) (heap_pa n) total).1,
        kmalloc_returns block n k stack size bitmap pos (omega arith) (omega arith) e,
        mapped total bitmap few pos room bytes pages,
        ap (λ (t : Kernel). t.memory) (mapped_lem total bitmap few),
      )

  -- With the first `n` pages in use, a request for at most 20 pages that ends below page 512
  -- returns the address of page `n`, and the heap then has its pages too, all of them mapped.
  pub kmalloc-IsHeap :
      (stack : List BitIndex) (size : ℕ)
      → length stack ≡ 64
      → page_total size ≤ 20
      → n + page_total size ≤ 512
      → (k' : Kernel) × (kmalloc block stack k size ≡ some (heap_va n, k'))
        × IsHeap block (n + page_total size) k'
  kmalloc-IsHeap stack size frame few room =
      let (k', e, heap', tables) = kmalloc_tables stack size frame few room in (k', e, heap')
