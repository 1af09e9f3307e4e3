-- ===== src/Kmalloc/Boot.antt =====
-- The heap right after `mmu_init` of kernel/core/mmu.c, before the first `kmalloc`.
use kernel_fuzzing.Base.{ℕ, ◌%◌, refl, false, arith}
use kernel_fuzzing.PageAlloc.{check_free, bit_mask}
use kernel_fuzzing.PageAlloc.Bitmap.{in_use, empty_byte}
use kernel_fuzzing.PageAlloc.Prefix.{IsPrefix}
use kernel_fuzzing.PageTable.{Memory}
use kernel_fuzzing.PageTable.Init.{SystemRegisters, mmu_init, clear_tables}
use kernel_fuzzing.PageTable.Init.Laws.{IsInImage, init_tables_entry}
use kernel_fuzzing.Kmalloc.Laws.{IsHeap}

pub empty_bitmap-IsPrefix : IsPrefix (λ i. 0) 0
unfolding in_use check_free bit_mask
empty_bitmap-IsPrefix q h = ground (arith, empty_byte (q % 8))

-- `mmu_init` with a bitmap of zeros and `ALLOCATED` at 0 sets up an empty heap, whatever the memory
-- held before.
pub mmu_init-IsHeap :
    (block : ℕ) (m : Memory) (r : SystemRegisters)
    → IsInImage block
    → IsHeap block 0
        (record { memory = (mmu_init block m r).0; bitmap = λ i. 0; allocated = false })
unfolding mmu_init
mmu_init-IsHeap block m r ok = record {
  bytes = λ i. omega arith;
  pages = empty_bitmap-IsPrefix;
  fits = omega arith;
  fresh = λ e. refl;
  at_l0 = (init_tables_entry block (clear_tables m) ok).0;
  at_l1 = λ e. cc;
  at_l2 = λ h. absurd (omega arith);
  at_l3 = λ q h. absurd (omega arith);
}
