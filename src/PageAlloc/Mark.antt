-- ===== src/PageAlloc/Mark.antt =====
-- The loop of `set_bitmap` of kernel/core/mmu.c: the pages that it takes, and where it writes them.
use kernel_fuzzing.Base.{
  ℕ, zero, suc, ◌+◌, ◌/◌, ◌%◌, ◌≤◌, ◌<◌, ◌≡◌, refl, false, ◌||◌, ◌⊎◌, inl, inr, Option, some, List,
  [], ◌∷◌, arith, length, set, has, length-set,
}
use kernel_fuzzing.PageAlloc.{
  Buffer, BitIndex, no_page, page_count, find_free, Marking, mark_page, set_bitmap_round,
  set_bitmap_loop,
}
use kernel_fuzzing.PageAlloc.Bitmap.{
  in_use, bit_index, IsBytes, mark_page-IsBytes, in_use-mark_page,
}
use kernel_fuzzing.PageAlloc.Search.{AllUsed, found, exhausted, find_free-FirstFree}

-- Taking the pages of the list in turn, each the first free one at its time, leads from one bitmap
-- to the other.
pub data Taken : Buffer → List ℕ → Buffer → Type 0 where
  nothing : {buffer : Buffer} → Taken buffer [] buffer
  next :
      {buffer out : Buffer} {p : ℕ} {ps : List ℕ}
      → p < page_count
      → in_use buffer p ≡ false
      → AllUsed buffer p
      → Taken (mark_page buffer (p / 8) (p % 8)) ps out
      → Taken buffer (p ∷ ps) out

-- The array with the pages of the list written from index `i` on.
abbrev pub write_pages : List BitIndex → ℕ → List ℕ → List BitIndex
write_pages res i [] = res
write_pages res i (p ∷ ps) = write_pages (set res i (bit_index p)) (i + 1) ps

abbrev pub AllFree : Buffer → List ℕ → Type 0
AllFree buffer [] = Unit {0}
AllFree buffer (p ∷ ps) = (p < page_count) × (in_use buffer p ≡ false) × AllFree buffer ps

-- The numbers grow, from `lo` on.
abbrev pub Increasing : ℕ → List ℕ → Type 0
Increasing lo [] = Unit {0}
Increasing lo (p ∷ ps) = (lo ≤ p) × Increasing (suc p) ps

AllFree-mono :
    (a b : Buffer) (ps : List ℕ)
    → ((q : ℕ) → in_use b q ≡ false → in_use a q ≡ false)
    → AllFree b ps
    → AllFree a ps
AllFree-mono a b [] h f = tt
AllFree-mono a b (p ∷ ps) h f = (f.0, h p f.1, AllFree-mono a b ps h f.2)

pub Taken-IsBytes :
    {buffer out : Buffer} {ps : List ℕ} → Taken buffer ps out → IsBytes buffer → IsBytes out
Taken-IsBytes nothing bytes = bytes
Taken-IsBytes (next {buffer} {p} lt free below rest) bytes =
    Taken-IsBytes rest (mark_page-IsBytes buffer p bytes)

-- The pages taken are in use afterwards, and no other page changes.
pub in_use-Taken :
    {buffer out : Buffer} {ps : List ℕ}
    → Taken buffer ps out
    → IsBytes buffer
    → (q : ℕ) → in_use out q ≡ (has q ps || in_use buffer q)
in_use-Taken nothing bytes q = refl
in_use-Taken (next {buffer} {p} {ps} lt free below rest) bytes q = ground (
  arith,
  in_use-Taken rest (mark_page-IsBytes buffer p bytes) q,
  in_use-mark_page buffer p bytes q,
)

pub Taken-AllFree :
    {buffer out : Buffer} {ps : List ℕ} → Taken buffer ps out → IsBytes buffer → AllFree buffer ps
Taken-AllFree nothing bytes = tt
Taken-AllFree (next {buffer} {p} {ps} lt free below rest) bytes = (
  lt,
  free,
  AllFree-mono buffer (mark_page buffer (p / 8) (p % 8)) ps
      (λ q e. ground (arith, in_use-mark_page buffer p bytes q))
      (Taken-AllFree rest (mark_page-IsBytes buffer p bytes)),
)

pub Taken-Increasing :
    {buffer out : Buffer} {ps : List ℕ} (lo : ℕ)
    → Taken buffer ps out
    → IsBytes buffer
    → AllUsed buffer lo
    → Increasing lo ps
Taken-Increasing lo nothing bytes below = tt
Taken-Increasing lo (next {buffer} {p} {ps} lt free used rest) bytes below = (
  ground (arith, below p),
  Taken-Increasing (suc p) rest (mark_page-IsBytes buffer p bytes)
      (λ q h. ground (arith, in_use-mark_page buffer p bytes q, used q)),
)

abbrev marking : Buffer → List BitIndex → ℕ → Marking
marking buffer res total = record { buffer = buffer; res = res; total = total }

-- What `left` rounds from index `i` leave: they stop early only when every page is taken.
pub record Rounds (left i : ℕ) (s : Marking) (result : Option Marking) : Type 0 where
  pub pages : List ℕ
  pub out : Buffer
  pub returns : result ≡ some (marking out (write_pages s.res i pages) (s.total + length pages))
  pub taken : Taken s.buffer pages out
  pub stops : (length pages ≡ left) ⊎ ((length pages < left) × AllUsed out page_count)

round_exhausted :
    (i : ℕ) (s : Marking) → find_free s.buffer ≡ no_page → set_bitmap_round i s ≡ some s
unfolding set_bitmap_round
round_exhausted i s e = rw e

loop_exhausted :
    (left i : ℕ) (s : Marking) → find_free s.buffer ≡ no_page → set_bitmap_loop left i s ≡ some s
unfolding set_bitmap_loop
loop_exhausted zero i s e = refl
loop_exhausted (suc left) i s e =
    rw (round_exhausted i s e, set_bitmap_loop) (loop_exhausted left (i + 1) s e)

round_found :
    (i p : ℕ) (s : Marking)
    → find_free s.buffer ≡ bit_index p
    → i < length s.res
    → set_bitmap_round i s
      ≡ some
          (marking (mark_page s.buffer (p / 8) (p % 8)) (set s.res i (bit_index p)) (s.total + 1))
unfolding set_bitmap_round
round_found i p s e h = rw e (ground arith)

Rounds-next :
    (left i : ℕ) (s : Marking) (p : ℕ) {result : Option Marking}
    → p < page_count
    → in_use s.buffer p ≡ false
    → AllUsed s.buffer p
    → Rounds left
        (i + 1)
        (marking (mark_page s.buffer (p / 8) (p % 8)) (set s.res i (bit_index p)) (s.total + 1))
        result
    → Rounds (suc left) i s result
Rounds-next left i s p lt free below r = record {
  pages = p ∷ r.pages;
  out = r.out;
  returns = ground (arith, r.returns);
  taken = next lt free below r.taken;
  stops = ground (arith, r.stops);
}

pub set_bitmap_loop-Rounds :
    (left i : ℕ) (s : Marking)
    → i + left ≤ length s.res
    → Rounds left i s (set_bitmap_loop left i s)
unfolding set_bitmap_loop
set_bitmap_loop-Rounds zero i s fits = record {
  pages = [];
  out = s.buffer;
  returns = ground arith;
  taken = nothing;
  stops = inl refl;
}
set_bitmap_loop-Rounds (suc left) i s fits = elim (find_free-FirstFree s.buffer) [
  | exhausted e all ↦ record {
    pages = [];
    out = s.buffer;
    returns = rw (loop_exhausted (suc left) i s e) (ground arith);
    taken = nothing;
    stops = inr (omega arith, all);
  }
  | found p e lt free below ↦
      let s' : Marking =
        marking (mark_page s.buffer (p / 8) (p % 8)) (set s.res i (bit_index p)) (s.total + 1) in
      let rest = set_bitmap_loop-Rounds left (i + 1) s' (rw length-set (omega arith)) in
      rw (round_found i p s e (omega arith), set_bitmap_loop)
        (Rounds-next left i s p lt free below rest)
]
