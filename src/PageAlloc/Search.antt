-- ===== src/PageAlloc/Search.antt =====
-- `find_free` of kernel/core/mmu.c: what its loop over the bitmap finds.
use kernel_fuzzing.Base.{
  ℕ, zero, suc, ◌+◌, ◌/◌, ◌%◌, ◌≤◌, ◌<◌, ◌≡◌, refl, true, false, inl, inr, arith, ◌==◌, leb,
  Bool-cases,
}
use kernel_fuzzing.PageAlloc.{
  Buffer, BitIndex, check_free, no_page, find_free_from, page_count, find_free,
}
use kernel_fuzzing.PageAlloc.Bitmap.{in_use, bit_index}

-- Every page of the bitmap below `n` is taken.
abbrev pub AllUsed : Buffer → ℕ → Type 0
AllUsed buffer n = (q : ℕ) → q < n → in_use buffer q ≡ true

-- `val` is the first free page, or there is none and `val` says so.
pub data FirstFree (buffer : Buffer) (val : BitIndex) : Type 0 where
  found :
      (p : ℕ)
      → val ≡ bit_index p
      → p < page_count
      → in_use buffer p ≡ false
      → AllUsed buffer p
      → FirstFree buffer val
  exhausted : val ≡ no_page → AllUsed buffer page_count → FirstFree buffer val

module _ (buffer : Buffer) where
  AllUsed-suc : (p : ℕ) → AllUsed buffer p → in_use buffer p ≡ true → AllUsed buffer (suc p)
  AllUsed-suc p below here q lt = elim (Bool-cases (q == p)) [
    | inl e ↦ let e' : q ≡ p = ground arith in rw e' here
    | inr e ↦ below q (ground arith)
  ]

  find_free_from-FirstFree :
      (fuel p index bit : ℕ)
      → index ≡ p / 8
      → bit ≡ p % 8
      → page_count < p + fuel
      → p ≤ page_count
      → AllUsed buffer p
      → FirstFree buffer (find_free_from fuel buffer index bit)
  unfolding find_free_from in_use
  find_free_from-FirstFree zero p index bit ei eb h le below = absurd (omega arith)
  find_free_from-FirstFree (suc fuel) p index bit ei eb h le below =
      elim (Bool-cases (leb index 16385)) [
        | inr past ↦
            let all : p ≡ page_count = ground arith in rw past (exhausted refl (rw all at below))
        | inl inside ↦ elim (Bool-cases (check_free buffer index bit)) [
          | inl free ↦ rw (inside, free) (found p (cc) (ground arith) (ground arith) below)
          | inr taken ↦
              rw (inside, taken)
                (find_free_from-FirstFree fuel (suc p) _ _ (ground arith) (ground arith)
                  (omega arith) (ground arith) (AllUsed-suc p below (ground arith)))
        ]
      ]

-- `find_free` returns the lowest free page, and `valid` is false exactly when none is free.
pub find_free-FirstFree : (buffer : Buffer) → FirstFree buffer (find_free buffer)
unfolding find_free
find_free-FirstFree buffer =
    find_free_from-FirstFree buffer (page_count + 1) 0 0 0 refl refl (omega arith) (omega arith)
      (λ q h. absurd (omega arith))
