-- ===== src/DeviceTree/TotalRam.antt =====
-- `get_total_ram` of kernel/core/dtd.c on the bytes of a device tree.
use kernel_fuzzing.Base.{
  ℕ, zero, suc, ◌+◌, ◌*◌, ◌/◌, ◌%◌, ◌^◌, ◌≤◌, ◌<◌, ◌≡◌, refl, ap, ◌∙◌, Bool, false, some, List, [],
  ◌∷◌, ◌++◌, length, length-append, ◌&&◌, ◌==◌, arith, if◌then◌else◌, Bool-cases, inl, inr,
}
use kernel_fuzzing.DeviceTree.{
  Bytes, read_b32, read_pair, sum_sizes, Round, returned, next, rounds, Cursor, total_ram_prop,
  total_ram_round, get_total_ram, struct_block, strings_block,
}
use kernel_fuzzing.DeviceTree.Reading.{
  be32, Holds, Holds-drop, gap, zeros, read_pair-sum, read_b32-be32, read_b32-cell, cell,
}
use kernel_fuzzing.DeviceTree.Tree.{
  Item, begins, property, ends, nop, item_bytes, tree_bytes, IsItem, IsTree, IsLong, AllItems,
  is_memory, is_reg, sizes, ram_of,
}
use kernel_fuzzing.DeviceTree.Items.{
  read_b32-token, length-padded_name, length-padded, length-item_bytes, tree_bytes-pos, rounds-next,
  rounds-returned, is_reg_at-is_reg, is_memory_at-is_memory, begins-token, begins-name,
  begin_node-begins, property-token, property-length, property-offset, property-value,
  property-align,
}

sum_sizes-sizes :
    (m : Bytes) (p : ℕ) (value : List ℕ) (left place total : ℕ)
    → Holds m p value
    → place + 16 * left ≤ length value
    → total < 2 ^ 64
    → sum_sizes m left (p + place) total ≡ (total + sizes left value place) % 2 ^ 64
unfolding sum_sizes
sum_sizes-sizes m p value zero place total h k small = omega arith
sum_sizes-sizes m p value (suc left) place total h k small =
    let size = cell value (place + 8) * 2 ^ 32 + cell value (place + 12) in
    let high : read_b32 m (p + place + 8) ≡ cell value (place + 8) =
      ap (read_b32 m) (omega arith) ∙ read_b32-cell m p value (place + 8) h (omega arith) in
    let low : read_b32 m (p + place + 8 + 4) ≡ cell value (place + 12) =
      ap (read_b32 m) (omega arith) ∙ read_b32-cell m p value (place + 12) h (omega arith) in
    let pair : read_pair m (p + place + 8) ≡ size =
      omega (arith, read_pair-sum m (p + place + 8), high, low) in
    let step : p + place + 16 ≡ p + (place + 16) = omega arith in
    let later =
      sum_sizes-sizes m p value left (place + 16) ((total + size) % 2 ^ 64) h (omega arith)
        (omega arith) in
    rw (pair, step) (later ∙ omega arith)

-- What the loop returns for the "reg" with this value.
reg_total :
    (m : Bytes) (p : ℕ) (value : List ℕ)
    → Holds m p value
    → if◌then◌else◌ {A = Round Cursor ℕ}
        (length value == 0)
        (returned 0)
        (returned (sum_sizes m (length value / 16) p 0))
      ≡ returned (sizes (length value / 16) value 0 % 2 ^ 64)
reg_total m p [] h = refl
reg_total m p (x ∷ value) h =
    let whole = x ∷ value in
    let e : p + 0 ≡ p = omega arith in
    let sum = sum_sizes-sizes m p whole (length whole / 16) 0 0 h (omega arith) (omega arith) in
    ground (arith, e, ap (λ q. sum_sizes m (length whole / 16) q 0) e, sum)

module _ (m : Bytes) (strings : ℕ) where
  -- One round of the loop at each item.
  module _ (p : ℕ) (inside : Bool) (rest : List ℕ) (fuel : ℕ) (aligned : p % 4 ≡ 0) where
    round-begins :
        (name : List ℕ)
        → Holds m p (item_bytes (begins name) ++ rest)
        → IsItem m strings (begins name)
        → IsLong (begins name)
        → length name < fuel
        → total_ram_round m strings fuel (p, inside)
          ≡ next (p + length (item_bytes (begins name)), is_memory name)
    unfolding total_ram_round
    round-begins name h ok long enough =
        let e =
          is_memory_at-is_memory m (p + 4) name (zeros (gap (length name + 1)) ++ rest)
            (begins-name m p name rest aligned h) long in
        rw (begins-token m p name rest aligned h, e)
          (begin_node-begins m p name rest aligned h fuel (λ q. (q, is_memory name)) ok enough)

    round-property :
        (offset : ℕ) (name value : List ℕ)
        → Holds m p (item_bytes (property offset name value) ++ rest)
        → IsItem m strings (property offset name value)
        → total_ram_round m strings fuel (p, inside) ≡ (
            if inside && is_reg name
            then returned (sizes (length value / 16) value 0 % 2 ^ 64)
            else next (p + length (item_bytes (property offset name value)), inside))
    unfolding total_ram_round total_ram_prop
    round-property offset name value h ok =
        let value_read = property-value m p strings offset name value rest aligned ok h in
        let sum = reg_total m (p + 4 + 8) value value_read in
        rw
          (
            property-token m p strings offset name value rest aligned ok h,
            property-length m p strings offset name value rest aligned ok h,
            property-offset m p strings offset name value rest aligned ok h,
            property-align m p strings offset name value rest aligned ok h,
            is_reg_at-is_reg m (strings + offset) name [] ok.2 ok.3,
            sum,
          )
          refl

    round-ends :
        Holds m p (item_bytes ends ++ rest)
        → total_ram_round m strings fuel (p, inside) ≡ next (p + length (item_bytes ends), false)
    unfolding total_ram_round
    round-ends h = rw (read_b32-token m p 2 rest (omega arith) h).0 refl

    round-nop :
        Holds m p (item_bytes nop ++ rest)
        → total_ram_round m strings fuel (p, inside) ≡ next (p + length (item_bytes nop), inside)
    unfolding total_ram_round
    round-nop h = rw (read_b32-token m p 4 rest (omega arith) h).0 refl

  round-last :
      (p : ℕ) (inside : Bool) (fuel : ℕ)
      → Holds m p (tree_bytes [])
      → total_ram_round m strings fuel (p, inside) ≡ returned 0
  unfolding total_ram_round
  round-last p inside fuel h = rw (read_b32-be32 m p 9 (omega arith) h) refl

  -- The loop over all items.
  rounds-ram :
      (xs : List Item) (fuel p : ℕ) (inside : Bool)
      → p % 4 ≡ 0
      → Holds m p (tree_bytes xs)
      → IsTree m strings xs
      → AllItems IsLong xs
      → length (tree_bytes xs) ≤ fuel
      → rounds (total_ram_round m strings) fuel (p, inside) ≡ some (ram_of inside xs)
  rounds-ram xs zero p inside aligned h ok long enough = absurd (tree_bytes-pos xs enough)
  rounds-ram [] (suc fuel) p inside aligned h ok long enough =
      rounds-returned (total_ram_round m strings) fuel (p, inside) 0 (round-last p inside fuel h)
  rounds-ram (begins name ∷ xs) (suc fuel) p inside aligned h ok long enough =
      let more = tree_bytes xs in
      let size = length-item_bytes (begins name) in
      let count = length-append (item_bytes (begins name)) more in
      let now =
        round-begins p inside more fuel aligned name h ok.0 long.0
          (omega (arith, length-padded_name name, count)) in
      rounds-next (total_ram_round m strings) fuel (p, inside) _ now
      ∙ rounds-ram xs fuel (p + length (item_bytes (begins name))) (is_memory name)
          (omega (arith, size)) (Holds-drop m p (item_bytes (begins name)) more h) ok.1 long.1
          (omega (arith, length-padded_name name, count))
  rounds-ram (property offset name value ∷ xs) (suc fuel) p inside aligned h ok long enough =
      let item = property offset name value in
      let more = tree_bytes xs in
      let size = length-item_bytes item in
      let count = length-append (item_bytes item) more in
      let now = round-property p inside more fuel aligned offset name value h ok.0 in
      let later =
        rounds-ram xs fuel (p + length (item_bytes item)) inside (omega (arith, size))
          (Holds-drop m p (item_bytes item) more h) ok.1 long.1
          (omega (arith, length-padded value, count)) in
      let total = sizes (length value / 16) value 0 % 2 ^ 64 in
      let behind : Cursor = (p + length (item_bytes item), inside) in
      let pick =
        λ (b : Bool). if◌then◌else◌ {A = Round Cursor ℕ} b (returned total) (next behind) in
      elim (Bool-cases (inside && is_reg name)) [
        | inl found ↦
            rounds-returned (total_ram_round m strings) fuel (p, inside) total (now ∙ ap pick found)
            ∙ rw found refl
        | inr other ↦
            rounds-next (total_ram_round m strings) fuel (p, inside) behind (now ∙ ap pick other)
            ∙ later
            ∙ rw other refl
      ]
  rounds-ram (ends ∷ xs) (suc fuel) p inside aligned h ok long enough =
      let more = tree_bytes xs in
      rounds-next (total_ram_round m strings) fuel (p, inside) _
        (round-ends p inside more fuel aligned h)
      ∙ rounds-ram xs fuel (p + 4) false (omega arith) (Holds-drop m p (be32 2) more h) ok.1 long.1
          (omega arith)
  rounds-ram (nop ∷ xs) (suc fuel) p inside aligned h ok long enough =
      let more = tree_bytes xs in
      rounds-next (total_ram_round m strings) fuel (p, inside) _
        (round-nop p inside more fuel aligned h)
      ∙ rounds-ram xs fuel (p + 4) inside (omega arith) (Holds-drop m p (be32 4) more h) ok.1 long.1
          (omega arith)

-- On memory that holds a device tree, its header with the offsets of the two blocks, and fuel for
-- every byte of the items, get_total_ram returns the sum of the sizes in the first "reg" of a node
-- named "me???y…", by its 64 bits, or 0 if there is none. Names that start with "me" have at least
-- six characters, names of properties at least two.
pub get_total_ram-ram_of :
    (m : Bytes) (xs : List Item) (fuel : ℕ)
    → struct_block m % 4 ≡ 0
    → Holds m (struct_block m) (tree_bytes xs)
    → IsTree m (strings_block m) xs
    → AllItems IsLong xs
    → length (tree_bytes xs) ≤ fuel
    → get_total_ram m fuel ≡ some (ram_of false xs)
unfolding get_total_ram
get_total_ram-ram_of m xs fuel aligned h ok long enough =
    rounds-ram m (strings_block m) xs fuel (struct_block m) false aligned h ok long enough
