-- ===== src/DeviceTree/Tree.antt =====
-- The flattened device tree of its specification, as a list of items with their bytes, and what
-- kernel/core/dtd.c is to find in it.
use kernel_fuzzing.Base.{
  ℕ, zero, suc, ◌+◌, ◌*◌, ◌/◌, ◌%◌, ◌^◌, ◌≤◌, ◌<◌, ◌≡◌, ◌⊎◌, Bool, false, List, [], ◌∷◌, ◌++◌,
  length, ◌==◌, ◌&&◌, ◌||◌, if◌then◌else◌, update, All,
}
use kernel_fuzzing.DeviceTree.{Bytes}
use kernel_fuzzing.DeviceTree.Reading.{be32, Holds, gap, zeros, IsChar, at, cell}

-- A property has its name in the block of strings, at an offset.
pub data Item : Type 0 where
  begins : (name : List ℕ) → Item
  property : (offset : ℕ) (name value : List ℕ) → Item
  ends : Item
  nop : Item

-- A text with its zero, filled up to a multiple of 4; a value without a zero.
abbrev pub padded_name : List ℕ → List ℕ
padded_name name = name ++ 0 ∷ zeros (gap (length name + 1))

abbrev pub padded : List ℕ → List ℕ
padded value = value ++ zeros (gap (length value))

abbrev pub item_bytes : Item → List ℕ
item_bytes (begins name) = be32 1 ++ padded_name name
item_bytes (property offset name value) =
    be32 3 ++ be32 (length value) ++ be32 offset ++ padded value
item_bytes ends = be32 2
item_bytes nop = be32 4

-- The items, and the token that ends them.
abbrev pub tree_bytes : List Item → List ℕ
tree_bytes [] = be32 9
tree_bytes (x ∷ xs) = item_bytes x ++ tree_bytes xs

-- Names have no zero in them, and what an item says of its length and its strings is so.
abbrev pub IsItem : Bytes → (strings : ℕ) → Item → Type 0
IsItem m strings (begins name) = All IsChar name
IsItem m strings (property offset name value) =
    (length value < 2 ^ 32)
    × (offset < 2 ^ 32)
    × Holds m (strings + offset) (name ++ 0 ∷ [])
    × (2 ≤ length name)
IsItem m strings ends = Unit {0}
IsItem m strings nop = Unit {0}

abbrev pub IsTree : Bytes → (strings : ℕ) → List Item → Type 0
IsTree m strings [] = Unit {0}
IsTree m strings (x ∷ xs) = IsItem m strings x × IsTree m strings xs

-- The names the reader takes for "memory@…", "reg", "virtio…" and "interrupts".
abbrev pub starts_me : List ℕ → Bool
starts_me name = at name 0 == 109 && at name 1 == 101

abbrev pub is_memory : List ℕ → Bool
is_memory name = at name 0 == 109 && (at name 1 == 101 && at name 5 == 121)

abbrev pub is_reg : List ℕ → Bool
is_reg name = at name 0 == 114 && at name 2 == 103

abbrev pub is_virtio : List ℕ → Bool
is_virtio name = at name 0 == 118 && (at name 1 == 105 && at name 2 == 114)

abbrev pub is_int : List ℕ → Bool
is_int name = at name 0 == 105 && (at name 1 == 110 && at name 2 == 116)

-- A name that starts with "me" is long enough for its sixth character to be its own.
abbrev pub IsLong : Item → Type 0
IsLong (begins name) = (5 < length name) ⊎ (starts_me name ≡ false)
IsLong (property offset name value) = Unit {0}
IsLong ends = Unit {0}
IsLong nop = Unit {0}

abbrev pub AllItems : (Item → Type 0) → List Item → Type 0
AllItems P [] = Unit {0}
AllItems P (x ∷ xs) = P x × AllItems P xs

-- The sum of the sizes of `left` entries of an address and a size, from a place on.
abbrev pub sizes : (left : ℕ) → List ℕ → (place : ℕ) → ℕ
sizes zero value place = 0
sizes (suc left) value place =
    cell value (place + 8) * 2 ^ 32 + cell value (place + 12) + sizes left value (place + 16)

-- The RAM of a tree: the sizes in the first "reg" of a memory node.
abbrev pub ram_of : (inside : Bool) → List Item → ℕ
ram_of inside [] = 0
ram_of inside (begins name ∷ xs) = ram_of (is_memory name) xs
ram_of inside (property offset name value ∷ xs) =
    let rest = ram_of inside xs in
    if inside && is_reg name then sizes (length value / 16) value 0 % 2 ^ 64 else rest
ram_of inside (ends ∷ xs) = ram_of false xs
ram_of inside (nop ∷ xs) = ram_of inside xs

-- The words 2 to 4 after an "interrupts", and the words 0 and 1 after a "reg".
abbrev pub with_interrupts : List ℕ → (ℕ → ℕ) → ℕ → ℕ
with_interrupts value result =
    update (update (update result 2 (cell value 0)) 3 (cell value 4)) 4 (cell value 8)

abbrev pub with_reg : List ℕ → (ℕ → ℕ) → ℕ → ℕ
with_reg value result =
    update (update result 0 (cell value 0 * 2 ^ 32 + cell value 4)) 1
      (cell value 8 * 2 ^ 32 + cell value 12)

-- The drive of a tree: the first "reg" of a virtio node that is not empty, and the last
-- "interrupts" of the virtio nodes before it.
abbrev pub drive_of : (inside : Bool) → List Item → (ℕ → ℕ) → ℕ → ℕ
drive_of inside [] result = result
drive_of inside (begins name ∷ xs) result = drive_of (is_virtio name) xs result
drive_of inside (property offset name value ∷ xs) result =
    let rest = drive_of inside xs result in
    let later = drive_of inside xs (with_interrupts value result) in
    if length value == 0
    then rest
    else if inside && is_reg name
    then with_reg value result
    else if inside && is_int name
    then later
    else rest
drive_of inside (ends ∷ xs) result = drive_of false xs result
drive_of inside (nop ∷ xs) result = drive_of inside xs result

-- In a virtio node a "reg" has its four cells and an "interrupts" its three.
abbrev pub IsDrive : (inside : Bool) → List Item → Type 0
IsDrive inside [] = Unit {0}
IsDrive inside (begins name ∷ xs) = IsDrive (is_virtio name) xs
IsDrive inside (property offset name value ∷ xs) =
    ((inside && (is_reg name || is_int name) ≡ false)
      ⊎ ((length value ≡ 0) ⊎ (16 ≤ length value) ⊎ ((is_reg name ≡ false) × (12 ≤ length value))))
    × IsDrive inside xs
IsDrive inside (ends ∷ xs) = IsDrive false xs
IsDrive inside (nop ∷ xs) = IsDrive inside xs
