-- ===== src/Tests/Heap.antt =====
-- `kmalloc` of kernel/core/mmu.c on a fresh heap, and on a heap of 512 pages.
use kernel_fuzzing.Base.{
  ◌<◌, ℕ, zero, suc, ◌+◌, ◌-◌, ◌*◌, ◌/◌, ◌%◌, every_below, every_below_lem, not, bit_and, ◌≡◌, refl,
  false, true, some, List, [], ◌∷◌, arith, ltb, ◌==◌, if◌then◌else◌, inr,
}
use kernel_fuzzing.PageAlloc.{BitIndex, no_page, page_total, check_free, bit_mask}
use kernel_fuzzing.PageAlloc.Bitmap.{in_use, empty_byte}
use kernel_fuzzing.PageAlloc.Allocate.{page_total_lem}
use kernel_fuzzing.PageAlloc.Prefix.{IsPrefix}
use kernel_fuzzing.PageTable.{Memory, l0_base_phys, l1_base_phys, l2_index3_base_phys}
use kernel_fuzzing.PageTable.Walk.{walk}
use kernel_fuzzing.PageTable.Init.{mmu_init}
use kernel_fuzzing.Kmalloc.{Kernel, kmalloc}
use kernel_fuzzing.Kmalloc.Mapping.{IsBlock, heap_pa, heap_va}
use kernel_fuzzing.Kmalloc.Laws.{IsHeap, kmalloc-IsHeap}
use kernel_fuzzing.Kmalloc.Maps.{kmalloc-walk}
use kernel_fuzzing.Kmalloc.Limits.{kmalloc_page_512}
use kernel_fuzzing.Kmalloc.Boot.{mmu_init-IsHeap}
use kernel_fuzzing.Tests.Tables.{block, blank, reset_registers}

pub block-IsBlock : IsBlock block
block-IsBlock = record {
  aligned = refl;
  small = omega arith;
  apart_l0 = inr (omega arith);
  apart_l1 = inr (omega arith);
  apart_l2 = inr (omega arith);
}

abbrev pub booted : Kernel
booted = record {
  memory = (mmu_init block blank reset_registers).0;
  bitmap = λ i. 0;
  allocated = false;
}

pub booted-IsHeap : IsHeap block 0 booted
booted-IsHeap = mmu_init-IsHeap block blank reset_registers (omega arith, omega arith)

-- `n` entries.
abbrev pub entries : ℕ → List BitIndex
entries zero = []
entries (suc n) = no_page ∷ entries n

abbrev pub stack : List BitIndex
stack = entries 64

total_5000 : page_total 5000 ≡ 2
total_5000 = omega (arith, page_total_lem 5000)

kmalloc-IsHeap_example :
    (k' : Kernel) × (kmalloc block stack booted 5000 ≡ some (heap_va 0, k'))
    × IsHeap block (0 + page_total 5000) k'
kmalloc-IsHeap_example =
    kmalloc-IsHeap block block-IsBlock 0 booted booted-IsHeap stack 5000 refl
      (omega (arith, total_5000)) (omega (arith, total_5000))

-- A kernel without any table.
abbrev bare : Kernel
bare = record { memory = λ w. 0; bitmap = λ i. 0; allocated = false }

-- The heap after 512 pages.
abbrev full_memory : Memory
full_memory w =
    if w == l0_base_phys
    then l1_base_phys + 3
    else if w == l1_base_phys + 24
    then l2_index3_base_phys + 3
    else if w == l2_index3_base_phys
    then block + 3
    else heap_pa ((w - block) / 8) + 0x443

abbrev full : Kernel
full = record { memory = full_memory; bitmap = λ i. if ltb i 64 then 255 else 0; allocated = true }

full_table : every_below 8 (λ bit. not (bit_and 255 (bit_mask bit) == 0)) ≡ true
unfolding every_below bit_mask
full_table = refl

full-IsPrefix : IsPrefix full.bitmap 512
unfolding in_use check_free bit_mask
full-IsPrefix q h = ground (
  arith,
  empty_byte (q % 8),
  every_below_lem 8 (λ bit. not (bit_and 255 (bit_mask bit) == 0)) (q % 8) full_table,
)

full-IsHeap : IsHeap block 512 full
full-IsHeap = record {
  bytes = λ i. ground arith;
  pages = full-IsPrefix;
  fits = omega arith;
  fresh = λ e. cc;
  at_l0 = refl;
  at_l1 = λ e. refl;
  at_l2 = λ h. refl;
  at_l3 = λ q h. ground arith;
}

kmalloc-walk_example :
    (va : ℕ) × (k' : Kernel) × (kmalloc block stack booted 5000 ≡ some (va, k'))
    × (va ≡ heap_va 0)
    × ((off : ℕ) → off < 5000 → walk k'.memory l0_base_phys (va + off) ≡ some (heap_pa 0 + off))
    × ((off : ℕ)
        → off < 4096 * 0
        → walk k'.memory l0_base_phys (heap_va 0 + off)
          ≡ walk booted.memory l0_base_phys (heap_va 0 + off))
kmalloc-walk_example =
    kmalloc-walk block block-IsBlock 0 booted booted-IsHeap stack 5000 refl
      (omega (arith, total_5000)) (omega (arith, total_5000))

kmalloc_page_512_example :
    (k' : Kernel) × (kmalloc block stack full 10 ≡ some (heap_va 512, k'))
    × (walk k'.memory l0_base_phys (heap_va 512 + 12) ≡ some (heap_pa 0 + 12))
    × (walk k'.memory l0_base_phys (heap_va 64 + 12) ≡ some (heap_pa 512 + 12))
kmalloc_page_512_example =
    kmalloc_page_512 block block-IsBlock full stack 10 12 full-IsHeap refl
      (omega (arith, page_total_lem 10)) (omega arith)
