-- ===== src/PageAlloc/Bitmap.antt =====
-- One bit of the bitmap: which page it stands for, and what `check_free`, marking and
-- `deallocate_mem` of kernel/core/mmu.c do to it.
use kernel_fuzzing.Base.{
  ℕ, ◌/◌, ◌%◌, ◌^◌, ◌<◌, ◌≡◌, refl, bit_and, bit_or, Bool, true, false, not, ◌&&◌, ◌||◌, arith,
  update, ◌==◌, every_below, every_below_lem, ==_iff,
}
use kernel_fuzzing.PageAlloc.{Buffer, BitIndex, bit_mask, check_free, mark_page}

-- Page `p` is bit `p % 8` of byte `p / 8`.
unfoldable pub in_use : Buffer → ℕ → Bool
in_use buffer p = not (check_free buffer (p / 8) (p % 8))

abbrev pub bit_index : ℕ → BitIndex
bit_index p = record { index = p / 8; bit = p % 8; valid = true }

abbrev pub IsBytes : Buffer → Type 0
IsBytes buffer = (i : ℕ) → buffer i < 256

abbrev is_clear : ℕ → ℕ → Bool
is_clear byte bit = bit_and byte (2 ^ bit % 2 ^ 8) == 0

abbrev same : Bool → Bool → Bool
same true b = b
same false b = not b

same_eq : (a b : Bool) → same a b ≡ true → a ≡ b
same_eq a b h = ground arith

abbrev marks_right : ℕ → ℕ → ℕ → Bool
marks_right byte i j =
    same (is_clear (bit_or byte (2 ^ i % 2 ^ 8)) j) (not (j == i) && is_clear byte j)

marks_table :
    every_below 256 (λ byte. every_below 8 (λ i. every_below 8 (λ j. marks_right byte i j))) ≡ true
unfolding every_below
marks_table = refl

mark_bit :
    (byte i j : ℕ)
    → byte < 256
    → i < 8
    → j < 8
    → is_clear (bit_or byte (2 ^ i % 2 ^ 8)) j ≡ (not (j == i) && is_clear byte j)
mark_bit byte i j hb hi hj = same_eq _ _ (
    every_below_lem 8 (λ j. marks_right byte i j) j
      (every_below_lem 8 (λ i. every_below 8 (λ j. marks_right byte i j)) i
        (every_below_lem 256
          (λ byte. every_below 8 (λ i. every_below 8 (λ j. marks_right byte i j))) byte marks_table
          hb)
        hi)
      hj)

byte_table :
    every_below 256 (λ byte. every_below 8 (λ i. bit_or byte (2 ^ i % 2 ^ 8) / 256 == 0)) ≡ true
unfolding every_below
byte_table = refl

mark_byte : (byte i : ℕ) → byte < 256 → i < 8 → bit_or byte (2 ^ i % 2 ^ 8) < 256
mark_byte byte i hb hi = ground (
  arith,
  every_below_lem 8 (λ i. bit_or byte (2 ^ i % 2 ^ 8) / 256 == 0) i
      (every_below_lem 256 (λ byte. every_below 8 (λ i. bit_or byte (2 ^ i % 2 ^ 8) / 256 == 0))
        byte byte_table hb)
      hi,
)

clear_table : every_below 8 (λ i. bit_and 0 (2 ^ i % 2 ^ 8) == 0) ≡ true
unfolding every_below
clear_table = refl

module _ (buffer : Buffer) (p : ℕ) (bytes : IsBytes buffer) where
  pub mark_page-IsBytes : IsBytes (mark_page buffer (p / 8) (p % 8))
  unfolding mark_page update bit_mask
  mark_page-IsBytes i = ground (arith, bytes i, bytes (p / 8), mark_byte (buffer (p / 8)) (p % 8))

  -- Marking a page takes that page and no other.
  pub in_use-mark_page :
      (q : ℕ) → in_use (mark_page buffer (p / 8) (p % 8)) q ≡ (q == p || in_use buffer q)
  unfolding in_use mark_page update check_free bit_mask
  in_use-mark_page q = ground (arith, bytes (p / 8), mark_bit (buffer (p / 8)) (p % 8) (q % 8))

-- A byte of zeros has eight free pages.
pub empty_byte : (i : ℕ) → i < 8 → bit_and 0 (2 ^ i % 2 ^ 8) ≡ 0
empty_byte i h =
    (==_iff _ _).0 (every_below_lem 8 (λ i. bit_and 0 (2 ^ i % 2 ^ 8) == 0) i clear_table h)
