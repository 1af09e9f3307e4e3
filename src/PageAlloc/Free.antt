-- ===== src/PageAlloc/Free.antt =====
-- `deallocate_mem` and `free_pages` of kernel/core/mmu.c.
use kernel_fuzzing.Base.{
  ℕ, zero, suc, ◌+◌, ◌-◌, ◌/◌, ◌%◌, ◌≤◌, ◌<◌, ◌≡◌, ◌≢◌, refl, ◌∙◌, ap, Bool, true, false, ◌||◌,
  ◌&&◌, not, List, [], ◌∷◌, some, arith, ◌==◌, length, set, get_elem?, update, if◌then◌else◌,
  length-set, get_elem?-set_self, get_elem?-set_ne,
}
use kernel_fuzzing.PageAlloc.{
  Buffer, BitIndex, deallocate_mem, check_free, bit_mask, free_pages, free_pages_loop, allocate_mem,
  page_total, page_count,
}
use kernel_fuzzing.PageAlloc.Bitmap.{in_use, bit_index, empty_byte, IsBytes}
use kernel_fuzzing.PageAlloc.Mark.{write_pages}
use kernel_fuzzing.PageAlloc.Allocate.{page_total_lem}
use kernel_fuzzing.PageAlloc.Prefix.{IsPrefix, range, allocate_mem-IsPrefix}

-- Giving back a page that is in use clears the whole byte of the bitmap: the eight pages of that
-- byte become free, whichever of them were in use, and no other page changes. The result is true.
-- Giving back a page that is free already changes nothing.
pub deallocate_mem_lem :
    (buffer : Buffer) (p : ℕ)
    → let (freed, out) = deallocate_mem buffer (p / 8) (p % 8) in
      (freed ≡ true)
      × ((q : ℕ)
          → in_use out q ≡ (if in_use buffer p && (q / 8 == p / 8) then false else in_use buffer q))
unfolding deallocate_mem in_use check_free update bit_mask
deallocate_mem_lem buffer p =
    (ground (arith, empty_byte (p % 8)), λ q. ground (arith, empty_byte (q % 8)))

-- The array lists these pages from index `i` on.
abbrev pub Lists : List BitIndex → ℕ → List ℕ → Type 0
Lists res i [] = Unit {0}
Lists res i (p ∷ ps) = (get_elem? res i ≡ some (bit_index p)) × Lists res (i + 1) ps

-- Some page of the list is in use and has its bit in the same byte as page `q`.
unfoldable pub shares_byte : Buffer → List ℕ → ℕ → Bool
shares_byte buffer [] q = false
shares_byte buffer (p ∷ ps) q = (in_use buffer p && (q / 8 == p / 8)) || shares_byte buffer ps q

-- Clearing the byte of `p` matters to the rest of the list only through that byte.
shares_byte-deallocate_mem :
    (buffer : Buffer) (p : ℕ) (ps : List ℕ) (q : ℕ)
    → (shares_byte buffer (p ∷ ps) q && in_use buffer q) ≡ (
        (in_use buffer p && (q / 8 == p / 8)) && in_use buffer q
        || (shares_byte (deallocate_mem buffer (p / 8) (p % 8)).1 ps q
            && in_use (deallocate_mem buffer (p / 8) (p % 8)).1 q))
unfolding shares_byte
shares_byte-deallocate_mem buffer p [] q = ground arith
shares_byte-deallocate_mem buffer p (r ∷ rs) q = ground (
  arith,
  shares_byte-deallocate_mem buffer p rs q,
  (deallocate_mem_lem buffer p).1 q,
  (deallocate_mem_lem buffer p).1 r,
)

free_pages_loop_lem :
    (ps : List ℕ) (i : ℕ) (res : List BitIndex) (buffer : Buffer)
    → Lists res i ps
    → (out : Buffer) × (free_pages_loop (length ps) i res buffer ≡ some out)
      × ((q : ℕ) → in_use out q ≡ (in_use buffer q && not (shares_byte buffer ps q)))
unfolding free_pages_loop shares_byte
free_pages_loop_lem [] i res buffer h = (buffer, refl, λ q. ground arith)
free_pages_loop_lem (p ∷ ps) i res buffer h =
    let (out, e, f) =
      free_pages_loop_lem ps (i + 1) res (deallocate_mem buffer (p / 8) (p % 8)).1 h.1 in
    (
      out,
      rw (h.0, free_pages_loop) e,
      λ q.
          ground (
            arith,
            f q,
            (deallocate_mem_lem buffer p).1 q,
            shares_byte-deallocate_mem buffer p ps q,
          ),
    )

-- `free_pages` on an array that lists pages from its start on: a page is in use afterwards exactly
-- if it was before and shares its byte with no listed page that was in use.
pub free_pages_lem :
    (ps : List ℕ) (res : List BitIndex) (buffer : Buffer)
    → Lists res 0 ps
    → (out : Buffer) × (free_pages buffer res (length ps) ≡ some out)
      × ((q : ℕ) → in_use out q ≡ (in_use buffer q && not (shares_byte buffer ps q)))
unfolding free_pages
free_pages_lem ps res buffer h = free_pages_loop_lem ps 0 res buffer h

Lists-set :
    (ps : List ℕ) (res : List BitIndex) (j i : ℕ) (b : BitIndex)
    → i < j
    → Lists res j ps
    → Lists (set res i b) j ps
Lists-set [] res j i b lt h = tt
Lists-set (p ∷ ps) res j i b lt h = (
  ground (arith, get_elem?-set_ne res i j b, h.0),
  Lists-set ps res (j + 1) i b (omega arith) h.1,
)

pub get_elem?-write_pages :
    (ps : List ℕ) (res : List BitIndex) (i j : ℕ)
    → j < i
    → get_elem? (write_pages res i ps) j ≡ get_elem? res j
get_elem?-write_pages [] res i j lt = refl
get_elem?-write_pages (p ∷ ps) res i j lt =
    get_elem?-write_pages ps (set res i (bit_index p)) (i + 1) j (omega arith)
    ∙ get_elem?-set_ne res i j (bit_index p) (omega arith)

-- What `allocate_mem` writes to the array is what `free_pages` reads.
pub Lists-write_pages :
    (ps : List ℕ) (res : List BitIndex) (i : ℕ)
    → i + length ps ≤ length res
    → Lists (write_pages res i ps) i ps
Lists-write_pages [] res i h = tt
Lists-write_pages (p ∷ ps) res i h = (
  get_elem?-write_pages ps (set res i (bit_index p)) (i + 1) i (omega arith)
      ∙ get_elem?-set_self res i (bit_index p) (omega arith),
  Lists-write_pages ps (set res i (bit_index p)) (i + 1) (rw length-set (omega arith)),
)

length-range : (n k : ℕ) → length (range n k) ≡ k
length-range n zero = refl
length-range n (suc k) = ap suc (length-range (suc n) k)

shares_byte-range :
    (buffer : Buffer) (n k : ℕ)
    → 0 < k
    → n % 8 ≢ 0
    → in_use buffer n ≡ true
    → shares_byte buffer (range n k) (n - 1) ≡ true
unfolding shares_byte
shares_byte-range buffer n zero h odd used = absurd (omega arith)
shares_byte-range buffer n (suc k) h odd used = ground arith

-- Giving back a fresh allocation that starts inside a byte of the bitmap also gives back the page
-- before it, which belongs to somebody else: with exactly the first `n` pages in use, `n` no
-- multiple of 8, page `n - 1` is free after `allocate_mem` and `free_pages`.
pub free_pages_frees_neighbour :
    (buffer : Buffer) (n size : ℕ) (res : List BitIndex)
    → IsBytes buffer
    → IsPrefix buffer n
    → page_total size ≤ length res
    → n + page_total size ≤ page_count
    → n % 8 ≢ 0
    → (mid out : Buffer) × (res' : List BitIndex) × (allocate_mem buffer size res
        ≡ some (page_total size, mid, res'))
      × (free_pages mid res' (page_total size) ≡ some out)
      × (in_use mid (n - 1) ≡ true)
      × (in_use out (n - 1) ≡ false)
free_pages_frees_neighbour buffer n size res bytes pre fits enough odd =
    let k = page_total size in
    let (mid, e, pre', _) = allocate_mem-IsPrefix buffer n size res bytes pre fits enough in
    let listed : Lists (write_pages res 0 (range n k)) 0 (range n k) =
      Lists-write_pages (range n k) res 0 (rw length-range (omega arith)) in
    let (out, e', f) = free_pages_lem (range n k) (write_pages res 0 (range n k)) mid listed in
    (
      mid,
      out,
      write_pages res 0 (range n k),
      e,
      rw length-range at e',
      ground (arith, pre' (n - 1)),
      ground (arith, f (n - 1), shares_byte-range mid n k, pre' n, page_total_lem size),
    )
