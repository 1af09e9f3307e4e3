-- ===== src/DeviceTree/Reading.antt =====
-- What `read_b32`, the header's fields and the two inner loops of kernel/core/dtd.c compute, on a
-- memory that holds given bytes.
use kernel_fuzzing.Base.{
  ℕ, zero, suc, ◌+◌, ◌-◌, ◌*◌, ◌/◌, ◌%◌, ◌^◌, ◌≤◌, ◌<◌, bit_or, ◌≡◌, refl, ap, ◌∙◌, some, List, [],
  ◌∷◌, ◌++◌, length, arith, All, dec_lt,
}
use kernel_fuzzing.Base.Bits.{bit_or_join, bit_and_low}
use kernel_fuzzing.DeviceTree.{
  Bytes, byte_at, read_b32, load_u32, bswap32, read_pair, skip_string, align_from, align,
}

-- A number by its four bytes, the highest first.
abbrev pub be32 : ℕ → List ℕ
be32 n = n / 2 ^ 24 % 2 ^ 8 ∷ n / 2 ^ 16 % 2 ^ 8 ∷ n / 2 ^ 8 % 2 ^ 8 ∷ n % 2 ^ 8 ∷ []

-- The memory has these bytes from the address on.
abbrev pub Holds : Bytes → ℕ → List ℕ → Type 0
Holds m p [] = Unit {0}
Holds m p (x ∷ xs) = (byte_at m p ≡ x) × Holds m (p + 1) xs

byte_at_bound : (m : Bytes) (p : ℕ) → byte_at m p < 2 ^ 8
unfolding byte_at
byte_at_bound m p = omega arith

module _ (m : Bytes) (p : ℕ) where
  -- `read_b32` is the number whose highest byte comes first.
  pub read_b32-sum :
      read_b32 m p
      ≡ byte_at m p * 2 ^ 24
        + byte_at m (p + 1) * 2 ^ 16
        + byte_at m (p + 2) * 2 ^ 8
        + byte_at m (p + 3)
  unfolding read_b32
  read_b32-sum =
      let a = byte_at m p in
      let b = byte_at m (p + 1) in
      let c = byte_at m (p + 2) in
      let d = byte_at m (p + 3) in
      let ha = byte_at_bound m p in
      let hb = byte_at_bound m (p + 1) in
      let hc = byte_at_bound m (p + 2) in
      let hd = byte_at_bound m (p + 3) in
      let whole : a * 2 ^ 24 % 2 ^ 32 ≡ a * 2 ^ 24 = omega arith in
      let two : bit_or (a * 2 ^ 24) (b * 2 ^ 16) ≡ (a * 2 ^ 8 + b) * 2 ^ 16 =
        bit_or_join 24 a (b * 2 ^ 16) (omega arith) ∙ omega arith in
      let three : bit_or ((a * 2 ^ 8 + b) * 2 ^ 16) (c * 2 ^ 8)
          ≡ (a * 2 ^ 16 + b * 2 ^ 8 + c) * 2 ^ 8 =
        bit_or_join 16 (a * 2 ^ 8 + b) (c * 2 ^ 8) (omega arith) ∙ omega arith in
      rw (whole, two, three, bit_or_join 8 (a * 2 ^ 16 + b * 2 ^ 8 + c) d (omega arith))
        (omega arith)

  pub read_b32_bound : read_b32 m p < 2 ^ 32
  read_b32_bound = omega (
    arith,
    read_b32-sum,
    byte_at_bound m p,
    byte_at_bound m (p + 1),
    byte_at_bound m (p + 2),
    byte_at_bound m (p + 3),
  )

  -- A load of the processor with its bytes exchanged is what `read_b32` reads.
  pub bswap32-load_u32 : bswap32 (load_u32 m p) ≡ read_b32 m p
  unfolding bswap32 load_u32
  bswap32-load_u32 = omega (
    arith,
    read_b32-sum,
    byte_at_bound m p,
    byte_at_bound m (p + 1),
    byte_at_bound m (p + 2),
    byte_at_bound m (p + 3),
  )

pub read_b32-be32 : (m : Bytes) (p n : ℕ) → n < 2 ^ 32 → Holds m p (be32 n) → read_b32 m p ≡ n
read_b32-be32 m p n small h =
    let h0 : byte_at m p ≡ n / 2 ^ 24 % 2 ^ 8 = h.0 in
    let h1 : byte_at m (p + 1) ≡ n / 2 ^ 16 % 2 ^ 8 = h.1.0 in
    let h2 : byte_at m (p + 2) ≡ n / 2 ^ 8 % 2 ^ 8 = ap (byte_at m) (omega arith) ∙ h.1.1.0 in
    let h3 : byte_at m (p + 3) ≡ n % 2 ^ 8 = ap (byte_at m) (omega arith) ∙ h.1.1.1.0 in
    omega (arith, read_b32-sum m p, h0, h1, h2, h3)

pub read_pair-sum : (m : Bytes) (p : ℕ) → read_pair m p ≡ read_b32 m p * 2 ^ 32 + read_b32 m (p + 4)
unfolding read_pair
read_pair-sum m p = bit_or_join 32 (read_b32 m p) (read_b32 m (p + 4)) (read_b32_bound m (p + 4))

-- Zeros up to the next multiple of 4.
abbrev pub gap : ℕ → ℕ
gap n = (4 - n % 4) % 4

abbrev pub zeros : ℕ → List ℕ
zeros zero = []
zeros (suc n) = 0 ∷ zeros n

pub length-zeros : (n : ℕ) → length (zeros n) ≡ n
length-zeros zero = refl
length-zeros (suc n) = ap suc (length-zeros n)

align_from_lem : (rounds p : ℕ) → gap p ≤ rounds → align_from rounds p ≡ p + gap p
unfolding align_from
align_from_lem zero p h = omega arith
align_from_lem (suc rounds) p h = elim (dec_lt 0 (p % 4)) [
  | yes more ↦ ground (arith, bit_and_low 2 p, align_from_lem rounds (p + 1) (omega arith))
  | no done ↦ ground (arith, bit_and_low 2 p)
]

-- The next multiple of 4.
pub align_lem : (p : ℕ) → align p ≡ p + gap p
unfolding align
align_lem p = align_from_lem 3 p (omega arith)

module _ (m : Bytes) where
  pub Holds-take : (p : ℕ) (xs ys : List ℕ) → Holds m p (xs ++ ys) → Holds m p xs
  Holds-take p [] ys h = tt
  Holds-take p (x ∷ xs) ys h = (h.0, Holds-take (p + 1) xs ys h.1)

  pub Holds-drop : (p : ℕ) (xs ys : List ℕ) → Holds m p (xs ++ ys) → Holds m (p + length xs) ys
  Holds-drop p [] ys h = let e : p + 0 ≡ p = omega arith in rw e h
  Holds-drop p (x ∷ xs) ys h =
      let e : p + suc (length xs) ≡ p + 1 + length xs = omega arith in
      rw e (Holds-drop (p + 1) xs ys h.1)

-- The characters of a name: not zero.
abbrev pub IsChar : ℕ → Type 0
IsChar c = 0 < c

-- The loop over a name stops at its end.
pub skip_string_lem :
    (m : Bytes) (fuel p : ℕ) (name rest : List ℕ)
    → Holds m p (name ++ 0 ∷ rest)
    → All IsChar name
    → length name < fuel
    → skip_string m fuel p ≡ some (p + length name)
unfolding skip_string
skip_string_lem m zero p name rest h chars enough = absurd (omega arith)
skip_string_lem m (suc fuel) p [] rest h chars enough = ground (arith, h.0)
skip_string_lem m (suc fuel) p (c ∷ name) rest h chars enough =
    ground (arith, h.0, chars.0, skip_string_lem m fuel (p + 1) name rest h.1 chars.1 (omega arith))

-- The element at a place of a list, and 0 behind its end.
abbrev pub at : List ℕ → ℕ → ℕ
at [] i = 0
at (x ∷ xs) zero = x
at (x ∷ xs) (suc i) = at xs i

pub byte_at-at :
    (m : Bytes) (p : ℕ) (xs : List ℕ) (i : ℕ)
    → Holds m p xs
    → i < length xs
    → byte_at m (p + i) ≡ at xs i
byte_at-at m p [] i h k = absurd (omega arith)
byte_at-at m p (x ∷ xs) zero h k = let e : p + 0 ≡ p = omega arith in rw e h.0
byte_at-at m p (x ∷ xs) (suc i) h k =
    let e : p + suc i ≡ p + 1 + i = omega arith in
    rw e (byte_at-at m (p + 1) xs i h.1 (omega arith))

-- The number in the four bytes from a place on.
abbrev pub cell : List ℕ → ℕ → ℕ
cell xs i = at xs i * 2 ^ 24 + at xs (i + 1) * 2 ^ 16 + at xs (i + 2) * 2 ^ 8 + at xs (i + 3)

pub read_b32-cell :
    (m : Bytes) (p : ℕ) (xs : List ℕ) (i : ℕ)
    → Holds m p xs
    → i + 4 ≤ length xs
    → read_b32 m (p + i) ≡ cell xs i
read_b32-cell m p xs i h k =
    let h0 = byte_at-at m p xs i h (omega arith) in
    let h1 : byte_at m (p + i + 1) ≡ at xs (i + 1) =
      ap (byte_at m) (omega arith) ∙ byte_at-at m p xs (i + 1) h (omega arith) in
    let h2 : byte_at m (p + i + 2) ≡ at xs (i + 2) =
      ap (byte_at m) (omega arith) ∙ byte_at-at m p xs (i + 2) h (omega arith) in
    let h3 : byte_at m (p + i + 3) ≡ at xs (i + 3) =
      ap (byte_at m) (omega arith) ∙ byte_at-at m p xs (i + 3) h (omega arith) in
    omega (arith, read_b32-sum m (p + i), h0, h1, h2, h3)
