-- ===== src/DeviceTree/Items.antt =====
-- What the reader of kernel/core/dtd.c meets at the bytes of one item: the token, the tests on
-- names, the parts of a property, and where the next item stands.
use kernel_fuzzing.Base.{
  ℕ, zero, suc, ◌+◌, ◌%◌, ◌^◌, ◌≤◌, ◌<◌, ◌≡◌, inl, inr, refl, ap, subst, ◌∙◌, some, List, [], ◌∷◌,
  ◌++◌, length, length-append, arith, All,
}
use mathlib.Core.List.{append_assoc}
use kernel_fuzzing.DeviceTree.{
  Bytes, byte_at, read_b32, align, Round, rounds, returned, next, begin_node, after_name,
  is_memory_at, is_reg_at, is_virtio_at, is_int_at,
}
use kernel_fuzzing.DeviceTree.Reading.{
  be32, Holds, Holds-take, Holds-drop, read_b32-be32, zeros, length-zeros, gap, align_lem,
  skip_string_lem, at, IsChar,
}
use kernel_fuzzing.DeviceTree.Tree.{
  Item, begins, property, ends, nop, item_bytes, tree_bytes, padded_name, padded, IsItem, IsLong,
  is_memory, is_reg, is_virtio, is_int,
}

module _ (m : Bytes) (p : ℕ) where
  -- The token, and what follows it.
  pub read_b32-token :
      (token : ℕ) (rest : List ℕ)
      → token < 2 ^ 32
      → Holds m p (be32 token ++ rest)
      → (read_b32 m p ≡ token) × Holds m (p + 4) rest
  read_b32-token token rest small h = (
    read_b32-be32 m p token small (Holds-take m p (be32 token) rest h),
    Holds-drop m p (be32 token) rest h,
  )

pub length-padded_name :
    (name : List ℕ) → length (padded_name name) ≡ length name + 1 + gap (length name + 1)
length-padded_name name = omega (
  arith,
  length-append name (0 ∷ zeros (gap (length name + 1))),
  length-zeros (gap (length name + 1)),
)

pub length-padded : (value : List ℕ) → length (padded value) ≡ length value + gap (length value)
length-padded value =
    omega
      (arith, length-append value (zeros (gap (length value))), length-zeros (gap (length value)))

-- The bytes of a name with its zero, read behind one another.
name_byte :
    (m : Bytes) (p : ℕ) (name rest : List ℕ) (i : ℕ)
    → Holds m p (name ++ 0 ∷ rest)
    → i ≤ length name
    → byte_at m (p + i) ≡ at name i
name_byte m p [] rest zero h k = let e : p + 0 ≡ p = omega arith in rw e h.0
name_byte m p [] rest (suc i) h k = absurd (omega arith)
name_byte m p (c ∷ name) rest zero h k = let e : p + 0 ≡ p = omega arith in rw e h.0
name_byte m p (c ∷ name) rest (suc i) h k =
    let e : p + suc i ≡ p + 1 + i = omega arith in
    rw e (name_byte m (p + 1) name rest i h.1 (omega arith))

-- The tests look at a character only when the ones before it are there.
module _ (m : Bytes) (p : ℕ) (name rest : List ℕ) (h : Holds m p (name ++ 0 ∷ rest)) where
  first_byte : byte_at m p ≡ at name 0
  first_byte = ap (byte_at m) (omega arith) ∙ name_byte m p name rest 0 h (omega arith)

  pub is_reg_at-is_reg : 2 ≤ length name → is_reg_at m p ≡ is_reg name
  unfolding is_reg_at
  is_reg_at-is_reg long = ground (arith, first_byte, name_byte m p name rest 2 h long)

pub is_memory_at-is_memory :
    (m : Bytes) (p : ℕ) (name rest : List ℕ)
    → Holds m p (name ++ 0 ∷ rest)
    → IsLong (begins name)
    → is_memory_at m p ≡ is_memory name
unfolding is_memory_at
is_memory_at-is_memory m p [] rest h long = ground (arith, first_byte m p [] rest h)
is_memory_at-is_memory m p (c ∷ name) rest h (inl long) = ground (
  arith,
  first_byte m p (c ∷ name) rest h,
  name_byte m p (c ∷ name) rest 1 h (omega arith),
  name_byte m p (c ∷ name) rest 5 h (omega arith),
)
is_memory_at-is_memory m p (c ∷ name) rest h (inr other) = ground (
  arith,
  other,
  first_byte m p (c ∷ name) rest h,
  name_byte m p (c ∷ name) rest 1 h (omega arith),
)

pub is_virtio_at-is_virtio :
    (m : Bytes) (p : ℕ) (name rest : List ℕ)
    → Holds m p (name ++ 0 ∷ rest)
    → is_virtio_at m p ≡ is_virtio name
unfolding is_virtio_at
is_virtio_at-is_virtio m p [] rest h = ground (arith, first_byte m p [] rest h)
is_virtio_at-is_virtio m p (c ∷ []) rest h =
    ground (arith, first_byte m p (c ∷ []) rest h, name_byte m p (c ∷ []) rest 1 h (omega arith))
is_virtio_at-is_virtio m p (c ∷ d ∷ name) rest h = ground (
  arith,
  first_byte m p (c ∷ d ∷ name) rest h,
  name_byte m p (c ∷ d ∷ name) rest 1 h (omega arith),
  name_byte m p (c ∷ d ∷ name) rest 2 h (omega arith),
)

pub is_int_at-is_int :
    (m : Bytes) (p : ℕ) (name rest : List ℕ)
    → Holds m p (name ++ 0 ∷ rest)
    → 2 ≤ length name
    → is_int_at m p ≡ is_int name
unfolding is_int_at
is_int_at-is_int m p name rest h long = ground (
  arith,
  first_byte m p name rest h,
  name_byte m p name rest 1 h (omega arith),
  name_byte m p name rest 2 h (omega arith),
)

name-append :
    (name rest : List ℕ)
    → padded_name name ++ rest ≡ name ++ 0 ∷ (zeros (gap (length name + 1)) ++ rest)
name-append name rest = append_assoc name (0 ∷ zeros (gap (length name + 1))) rest

-- A node: its token, its name, and the next item behind the padding.
module _ (m : Bytes) (p : ℕ) (name rest : List ℕ) (aligned : p % 4 ≡ 0)
    (h : Holds m p (item_bytes (begins name) ++ rest)) where
  pub begins-token : read_b32 m p ≡ 1
  begins-token = (read_b32-token m p 1 (padded_name name ++ rest) (omega arith) h).0

  pub begins-name : Holds m (p + 4) (name ++ 0 ∷ (zeros (gap (length name + 1)) ++ rest))
  begins-name =
      subst (Holds m (p + 4)) (name-append name rest)
        (read_b32-token m p 1 (padded_name name ++ rest) (omega arith) h).1

  pub begin_node-begins :
      {S B : Type 0} (fuel : ℕ) (go : ℕ → S)
      → All IsChar name
      → length name < fuel
      → begin_node m {S = S} {B = B} fuel (p + 4) go
        ≡ next (go (p + length (item_bytes (begins name))))
  unfolding begin_node after_name
  begin_node-begins fuel go chars enough =
      let e : align (p + 4 + length name + 1) ≡ p + length (item_bytes (begins name)) =
        omega (arith, align_lem (p + 4 + length name + 1), length-padded_name name) in
      let end =
        skip_string_lem m fuel (p + 4) name (zeros (gap (length name + 1)) ++ rest) begins-name
          chars enough in
      ap (after_name go) end ∙ ap (λ q. next (go q)) e

-- A property: its token, length and offset, its value, and the next item.
module _ (m : Bytes) (p strings offset : ℕ) (name value rest : List ℕ) (aligned : p % 4 ≡ 0)
    (ok : IsItem m strings (property offset name value))
    (h : Holds m p (item_bytes (property offset name value) ++ rest)) where
  abbrev after_length : List ℕ
  after_length = be32 offset ++ padded value ++ rest

  abbrev after_token : List ℕ
  after_token = be32 (length value) ++ after_length

  at_token : (read_b32 m p ≡ 3) × Holds m (p + 4) after_token
  at_token = read_b32-token m p 3 after_token (omega arith) h

  at_length : (read_b32 m (p + 4) ≡ length value) × Holds m (p + 4 + 4) after_length
  at_length = read_b32-token m (p + 4) (length value) after_length ok.0 at_token.1

  at_offset : (read_b32 m (p + 4 + 4) ≡ offset) × Holds m (p + 4 + 4 + 4) (padded value ++ rest)
  at_offset = read_b32-token m (p + 4 + 4) offset (padded value ++ rest) ok.1 at_length.1

  pub property-token : read_b32 m p ≡ 3
  property-token = at_token.0

  pub property-length : read_b32 m (p + 4) ≡ length value
  property-length = at_length.0

  pub property-offset : read_b32 m (p + 4 + 4) ≡ offset
  property-offset = at_offset.0

  pub property-value : Holds m (p + 4 + 8) value
  property-value =
      let e : p + 4 + 8 ≡ p + 4 + 4 + 4 = omega arith in
      rw e (
        Holds-take m (p + 4 + 4 + 4) value (zeros (gap (length value)))
          (Holds-take m (p + 4 + 4 + 4) (padded value) rest at_offset.1))

  pub property-align :
      align (p + 4 + 8 + length value) ≡ p + length (item_bytes (property offset name value))
  property-align = omega (arith, align_lem (p + 4 + 8 + length value), length-padded value)

-- Every item fills a multiple of 4 bytes.
pub length-item_bytes : (x : Item) → length (item_bytes x) % 4 ≡ 0
length-item_bytes (begins name) = omega (arith, length-padded_name name)
length-item_bytes (property offset name value) = omega (arith, length-padded value)
length-item_bytes ends = refl
length-item_bytes nop = refl

pub tree_bytes-pos : (xs : List Item) → ¬ (length (tree_bytes xs) ≤ 0)
tree_bytes-pos [] h = omega arith
tree_bytes-pos (begins name ∷ xs) h = omega arith
tree_bytes-pos (property offset name value ∷ xs) h = omega arith
tree_bytes-pos (ends ∷ xs) h = omega arith
tree_bytes-pos (nop ∷ xs) h = omega arith

-- What the loop does after one round of it.
module _ {ℓ ℓ'} {S : Type ℓ} {B : Type ℓ'} (round : ℕ → S → Round S B) (fuel : ℕ) (s : S) where
  pub rounds-next :
      (t : S) → round fuel s ≡ next t → rounds round (suc fuel) s ≡ rounds round fuel t
  unfolding rounds
  rounds-next t e = rw (rounds, e) refl

  pub rounds-returned : (b : B) → round fuel s ≡ returned b → rounds round (suc fuel) s ≡ some b
  unfolding rounds
  rounds-returned b e = rw (rounds, e) refl
