-- ===== src/Kmalloc/Result.antt =====
-- The address that `kmalloc` of kernel/core/mmu.c returns when its pages are consecutive.
use kernel_fuzzing.Base.{
  ℕ, zero, suc, ◌<◌, ◌≡◌, refl, ◌∙◌, some, arith, List, bit_or, length, set, get_elem?,
  get_elem?-set_self,
}
use kernel_fuzzing.Base.Bits.{bit_or_split, bit_or-zero}
use kernel_fuzzing.PageAlloc.{Buffer, BitIndex, allocate_mem, page_total, page_count}
use kernel_fuzzing.PageAlloc.Bitmap.{bit_index}
use kernel_fuzzing.PageAlloc.Mark.{write_pages}
use kernel_fuzzing.PageAlloc.Allocate.{bitindex_to_phys_lem}
use kernel_fuzzing.PageAlloc.Prefix.{range}
use kernel_fuzzing.PageAlloc.Free.{get_elem?-write_pages}
use kernel_fuzzing.Kmalloc.{Kernel, kmalloc, map_pagetable_entry, kernel_bits}
use kernel_fuzzing.Kmalloc.Mapping.{heap_pa, heap_va}

kernel_address : (p : ℕ) → p < page_count → bit_or (heap_pa p) kernel_bits ≡ heap_va p
kernel_address p h = ground (
  arith,
  bit_or_split 48 0 0xFFFF (heap_pa p) 0 (omega arith) (omega arith),
  bit_or-zero (heap_pa p),
)

module _ (block n : ℕ) (k : Kernel) where
  first_page :
      (stack : List BitIndex) (total : ℕ)
      → 0 < total
      → 0 < length stack
      → get_elem? (write_pages stack 0 (range n total)) 0 ≡ some (bit_index n)
  first_page stack zero pos room = absurd (omega arith)
  first_page stack (suc total) pos room =
      get_elem?-write_pages (range (suc n) total) (set stack 0 (bit_index n)) 1 0 (omega arith)
      ∙ get_elem?-set_self stack 0 (bit_index n) room

  pub kmalloc_returns :
      (stack : List BitIndex) (size : ℕ) (bitmap : Buffer)
      → 0 < page_total size
      → 0 < length stack
      → n < page_count
      → allocate_mem k.bitmap size stack
        ≡ some (page_total size, bitmap, write_pages stack 0 (range n (page_total size)))
      → kmalloc block stack k size
        ≡ some (
          heap_va n,
          (map_pagetable_entry block
              (record k { bitmap = bitmap })
              (heap_va n)
              (heap_pa n)
              (page_total size)).1,
        )
  unfolding kmalloc
  kmalloc_returns stack size bitmap pos room lt e =
      rw
        (
          kmalloc,
          e,
          first_page stack (page_total size) pos room,
          bitindex_to_phys_lem n (omega arith),
          kernel_address n lt,
        )
        refl
