-- ===== src/Kmalloc/Maps.antt =====
-- What the caller of `kmalloc` of kernel/core/mmu.c gets: memory, at the addresses of its block.
use kernel_fuzzing.Base.{
  ℕ, ◌+◌, ◌*◌, ◌/◌, ◌%◌, ◌≤◌, ◌<◌, ◌≡◌, ◌∙◌, refl, sym, ap, some, List, length, arith,
}
use kernel_fuzzing.PageAlloc.{BitIndex, page_total}
use kernel_fuzzing.PageTable.{l0_base_phys}
use kernel_fuzzing.PageAlloc.Allocate.{page_total_lem}
use kernel_fuzzing.PageTable.Walk.{walk}
use kernel_fuzzing.Kmalloc.{Kernel, kmalloc}
use kernel_fuzzing.Kmalloc.Mapping.{IsBlock, heap_pa, heap_va}
use kernel_fuzzing.Kmalloc.Laws.{IsHeap, kmalloc-IsHeap, walk-IsHeap}

-- Any offset into the pages of a heap, instead of a page and an offset into it.
heap_translates :
    (block : ℕ)
    → IsBlock block
    → (n : ℕ) (k : Kernel) → IsHeap block n k
    → (off : ℕ) → off < 4096 * n
    → walk k.memory l0_base_phys (heap_va 0 + off) ≡ some (heap_pa 0 + off)
heap_translates block ok n k heap off lt =
    let at = walk-IsHeap block ok n k heap (off / 4096) (off % 4096) (omega arith) (omega arith) in
    ap (walk k.memory l0_base_phys) (omega arith) ∙ at ∙ ap some (omega arith)

-- On a heap with `n` pages, a request for at most 20 pages that ends below page 512 returns an
-- address from which on every byte of the request translates to the byte of the block's physical
-- pages; blocks do not overlap, since these pages were not in the heap before. Every address of the
-- heap before translates as it did.
pub kmalloc-walk :
    (block : ℕ)
    → IsBlock block
    → (n : ℕ) (k : Kernel) → IsHeap block n k
    → (stack : List BitIndex) (size : ℕ) → length stack ≡ 64
    → page_total size ≤ 20
    → n + page_total size ≤ 512
    → (va : ℕ) × (k' : Kernel) × (kmalloc block stack k size ≡ some (va, k'))
      × (va ≡ heap_va n)
      × ((off : ℕ) → off < size → walk k'.memory l0_base_phys (va + off) ≡ some (heap_pa n + off))
      × ((off : ℕ)
          → off < 4096 * n
          → walk k'.memory l0_base_phys (heap_va 0 + off)
            ≡ walk k.memory l0_base_phys (heap_va 0 + off))
kmalloc-walk block ok n k heap stack size frame few room =
    let (k', e, heap') = kmalloc-IsHeap block ok n k heap stack size frame few room in
    let all = heap_translates block ok (n + page_total size) k' heap' in
    let big = page_total_lem size in
    (
      heap_va n,
      k',
      e,
      refl,
      λ off h.
          ap (walk k'.memory l0_base_phys) (omega arith)
          ∙ all (4096 * n + off) (omega arith)
          ∙ ap some (omega arith),
      λ off h. all off (omega arith) ∙ sym (heap_translates block ok n k heap off h),
    )
