-- ===== src/PageAlloc/Allocate.antt =====
-- `allocate_mem` of kernel/core/mmu.c: what a request takes, and what a failing one leaves behind.
use kernel_fuzzing.Base.{
  ℕ, ◌+◌, ◌-◌, ◌*◌, ◌≤◌, ◌<◌, ◌≡◌, ◌||◌, ◌⊎◌, Option, some, List, arith, ◌==◌, length, has,
  if◌then◌else◌,
}
use kernel_fuzzing.PageAlloc.{
  Buffer, BitIndex, Marking, set_bitmap_loop, page_count, set_bitmap, page_total, allocate_mem,
  bitindex_to_phys, phys_base_addr,
}
use kernel_fuzzing.PageAlloc.Bitmap.{in_use, bit_index, IsBytes}
use kernel_fuzzing.PageAlloc.Search.{AllUsed}
use kernel_fuzzing.PageAlloc.Mark.{
  Taken, write_pages, AllFree, Increasing, in_use-Taken, Taken-AllFree, Taken-Increasing,
  Taken-IsBytes, Rounds, set_bitmap_loop-Rounds,
}

-- A request takes the pages `pages`, all of them free before, in growing order; they are in use
-- afterwards, no other page changes, and `res` lists them. The result is their number, or 0 if
-- there were too few, and then no page at all is free any more.
pub record Allocation (buffer : Buffer) (size : ℕ) (res : List BitIndex)
    (result : Option (ℕ × Buffer × List BitIndex)) : Type 0 where
  pub pages : List ℕ
  pub count : ℕ
  pub out : Buffer
  pub returns : result ≡ some (count, out, write_pages res 0 pages)
  pub taken : Taken buffer pages out
  pub free_before : AllFree buffer pages
  pub in_order : Increasing 0 pages
  pub effect : (q : ℕ) → in_use out q ≡ (has q pages || in_use buffer q)
  pub still_bytes : IsBytes out
  pub outcome :
      ((count ≡ page_total size) × (length pages ≡ page_total size))
      ⊎ ((count ≡ 0) × (length pages < page_total size) × AllUsed out page_count)

abbrev start : Buffer → List BitIndex → Marking
start buffer res = record { buffer = buffer; res = res; total = 0 }

allocate_mem-Rounds :
    (buffer : Buffer) (size : ℕ) (res : List BitIndex)
    (r : Rounds
      (page_total size)
      0
      (start buffer res)
      (set_bitmap_loop (page_total size) 0 (start buffer res)))
    → allocate_mem buffer size res
      ≡ some (
        if length r.pages == page_total size then page_total size else 0,
        r.out,
        write_pages res 0 r.pages,
      )
unfolding allocate_mem set_bitmap
allocate_mem-Rounds buffer size res r = rw (r.returns, allocate_mem, set_bitmap) (ground arith)

-- For a request that fits the caller's array, `allocate_mem` writes inside the array and does
-- what `Allocation` says, whether or not there are enough pages.
pub allocate_mem-Allocation :
    (buffer : Buffer) (size : ℕ) (res : List BitIndex)
    → IsBytes buffer
    → page_total size ≤ length res
    → Allocation buffer size res (allocate_mem buffer size res)
allocate_mem-Allocation buffer size res bytes fits =
    let r = set_bitmap_loop-Rounds (page_total size) 0 (start buffer res) (omega arith) in
    record {
      pages = r.pages;
      count = if length r.pages == page_total size then page_total size else 0;
      out = r.out;
      returns = allocate_mem-Rounds buffer size res r;
      taken = r.taken;
      free_before = Taken-AllFree r.taken bytes;
      in_order = Taken-Increasing 0 r.taken bytes (λ q h. absurd (omega arith));
      effect = in_use-Taken r.taken bytes;
      still_bytes = Taken-IsBytes r.taken bytes;
      outcome = ground (arith, r.stops);
    }

-- The number of pages is the size divided by 4096 and rounded up, and 1 for an empty request.
pub page_total_lem :
    (size : ℕ)
    → (size ≤ 4096 * page_total size)
      × (0 < page_total size)
      × (4096 * page_total size < size + 4096 + (4096 - size))
unfolding page_total
page_total_lem size = ground arith

-- Page `p` of the bitmap is the 4 KiB page at `0xC0000000 + 4096 * p`, with no wrap.
pub bitindex_to_phys_lem :
    (p : ℕ) → p < page_count → bitindex_to_phys (bit_index p) ≡ phys_base_addr + 4096 * p
unfolding bitindex_to_phys
bitindex_to_phys_lem p h = omega arith
