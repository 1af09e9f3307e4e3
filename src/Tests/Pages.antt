-- ===== src/Tests/Pages.antt =====
-- The bitmap of kernel/core/mmu.c at concrete requests.
use kernel_fuzzing.Base.{
  ℕ, ◌-◌, ◌&&◌, not, length, ◌≡◌, refl, true, false, some, List, [], ◌∷◌, arith,
}
use kernel_fuzzing.PageAlloc.{
  mark_page, Buffer, BitIndex, page_total, allocate_mem, free_pages, find_free, no_page,
}
use kernel_fuzzing.PageAlloc.Bitmap.{mark_page-IsBytes, IsBytes, bit_index, in_use}
use kernel_fuzzing.PageAlloc.Search.{FirstFree, find_free-FirstFree}
use kernel_fuzzing.PageAlloc.Allocate.{Allocation, allocate_mem-Allocation, page_total_lem}
use kernel_fuzzing.PageAlloc.Prefix.{IsPrefix, IsPrefix-mark_page}
use kernel_fuzzing.Kmalloc.Boot.{empty_bitmap-IsPrefix}
use kernel_fuzzing.PageAlloc.Free.{free_pages_lem, shares_byte, free_pages_frees_neighbour}

-- Three pages in use.
abbrev one_used : Buffer
one_used = mark_page (λ i. 0) 0 0

abbrev two_used : Buffer
two_used = mark_page one_used 0 1

abbrev pub three_used : Buffer
three_used = mark_page two_used 0 2

one_used-IsBytes : IsBytes one_used
one_used-IsBytes = mark_page-IsBytes (λ i. 0) 0 (λ i. omega arith)

two_used-IsBytes : IsBytes two_used
two_used-IsBytes = mark_page-IsBytes one_used 1 one_used-IsBytes

pub three_used-IsBytes : IsBytes three_used
three_used-IsBytes = mark_page-IsBytes two_used 2 two_used-IsBytes

pub three_used-IsPrefix : IsPrefix three_used 3
three_used-IsPrefix = IsPrefix-mark_page two_used 2 two_used-IsBytes (
    IsPrefix-mark_page one_used 1 one_used-IsBytes
      (IsPrefix-mark_page (λ i. 0) 0 (λ i. omega arith) empty_bitmap-IsPrefix))

abbrev frame : List BitIndex
frame = no_page ∷ (no_page ∷ (no_page ∷ []))

page_total_5000 : page_total 5000 ≡ 2
page_total_5000 = omega (arith, page_total_lem 5000)

find_free_example : FirstFree three_used (find_free three_used)
find_free_example = find_free-FirstFree three_used

allocate_mem_example : Allocation three_used 5000 frame (allocate_mem three_used 5000 frame)
allocate_mem_example =
    allocate_mem-Allocation three_used 5000 frame three_used-IsBytes
      (omega (arith, page_total_5000))

free_pages_example :
    (out : Buffer) × (free_pages three_used
        (bit_index 1 ∷ (bit_index 2 ∷ []))
        (length {A = ℕ} (1 ∷ (2 ∷ [])))
      ≡ some out)
    × ((q : ℕ)
        → in_use out q ≡ (in_use three_used q && not (shares_byte three_used (1 ∷ (2 ∷ [])) q)))
free_pages_example =
    free_pages_lem (1 ∷ (2 ∷ [])) (bit_index 1 ∷ (bit_index 2 ∷ [])) three_used (refl, (refl, tt))

free_pages_frees_neighbour_example :
    (mid out : Buffer) × (res' : List BitIndex) × (allocate_mem three_used 5000 frame
      ≡ some (page_total 5000, mid, res'))
    × (free_pages mid res' (page_total 5000) ≡ some out)
    × (in_use mid (3 - 1) ≡ true)
    × (in_use out (3 - 1) ≡ false)
free_pages_frees_neighbour_example =
    free_pages_frees_neighbour three_used 3 5000 frame three_used-IsBytes three_used-IsPrefix
      (omega (arith, page_total_5000)) (omega (arith, page_total_5000)) (omega arith)
