-- ===== src/PageAlloc/Prefix.antt =====
-- While no page has been given back, the pages in use are the first ones, and a request gets
-- consecutive pages. `kmalloc` relies on this: it maps a range from the first page of the result.
use kernel_fuzzing.Base.{
  ℕ, zero, suc, ◌+◌, ◌/◌, ◌%◌, ◌≤◌, ◌<◌, ◌≡◌, refl, ap, ◌∙◌, some, false, inl, inr, List, [], ◌∷◌,
  arith, ltb, length,
}
use kernel_fuzzing.PageAlloc.{Buffer, BitIndex, page_count, page_total, allocate_mem, mark_page}
use kernel_fuzzing.PageAlloc.Bitmap.{in_use, IsBytes, mark_page-IsBytes, in_use-mark_page}
use kernel_fuzzing.PageAlloc.Search.{AllUsed}
use kernel_fuzzing.PageAlloc.Mark.{Taken, nothing, next, write_pages}
use kernel_fuzzing.PageAlloc.Allocate.{allocate_mem-Allocation}

-- Exactly the first `n` pages are in use.
abbrev pub IsPrefix : Buffer → ℕ → Type 0
IsPrefix buffer n = (q : ℕ) → q < page_count → in_use buffer q ≡ ltb q n

-- `n`, `n + 1`, …
abbrev pub range : ℕ → ℕ → List ℕ
range n zero = []
range n (suc k) = n ∷ range (suc n) k

first_free_page :
    (buffer : Buffer) (n p : ℕ)
    → IsPrefix buffer n
    → p < page_count
    → in_use buffer p ≡ false
    → AllUsed buffer p
    → p ≡ n
first_free_page buffer n p pre lt free below = ground (arith, pre p, pre n, below n)

pub IsPrefix-mark_page :
    (buffer : Buffer) (n : ℕ)
    → IsBytes buffer
    → IsPrefix buffer n
    → IsPrefix (mark_page buffer (n / 8) (n % 8)) (suc n)
IsPrefix-mark_page buffer n bytes pre q h = ground (arith, in_use-mark_page buffer n bytes q, pre q)

Taken-range :
    {buffer out : Buffer} {ps : List ℕ} (n : ℕ)
    → Taken buffer ps out
    → IsBytes buffer
    → IsPrefix buffer n
    → (ps ≡ range n (length ps)) × IsPrefix out (n + length ps)
Taken-range n nothing bytes pre = (refl, λ q h. ground (arith, pre q))
Taken-range n (next {buffer} {p} {ps} lt free below rest) bytes pre =
    let here = first_free_page buffer n p pre lt free below in
    let pre' : IsPrefix buffer p = λ q h. ground (arith, pre q) in
    let (e, pre'') =
      Taken-range (suc p) rest (mark_page-IsBytes buffer p bytes)
        (IsPrefix-mark_page buffer p bytes pre') in
    (rw (← here) (ap (λ xs. p ∷ xs) e), λ q h. ground (arith, pre'' q))

-- From a bitmap with exactly the first `n` pages in use, a request for which enough pages are left
-- succeeds, gets the pages `n`, `n + 1`, …, and leaves such a bitmap.
pub allocate_mem-IsPrefix :
    (buffer : Buffer) (n size : ℕ) (res : List BitIndex)
    → IsBytes buffer
    → IsPrefix buffer n
    → page_total size ≤ length res
    → n + page_total size ≤ page_count
    → (out : Buffer) × (allocate_mem buffer size res
        ≡ some (page_total size, out, write_pages res 0 (range n (page_total size))))
      × IsPrefix out (n + page_total size)
      × IsBytes out
allocate_mem-IsPrefix buffer n size res bytes pre fits enough =
    let a = allocate_mem-Allocation buffer size res bytes fits in
    let (e, pre') = Taken-range n a.taken bytes pre in
    elim a.outcome [
      | inl (c, l) ↦ (a.out, a.returns ∙ cc (c, l, e), rw (← l) pre', a.still_bytes)
      | inr (c, l, all) ↦
          absurd (ground (arith, all (n + length a.pages), pre' (n + length a.pages)))
    ]
