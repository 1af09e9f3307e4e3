-- ===== src/DeviceTree/DriveInfo.antt =====
-- `get_drive_info` of kernel/core/dtd.c on the bytes of a device tree.
use kernel_fuzzing.Base.{
  ℕ, zero, suc, ◌+◌, ◌*◌, ◌%◌, ◌^◌, ◌≤◌, ◌<◌, ◌≡◌, refl, ap, ◌∙◌, Bool, true, false, some, List, [],
  ◌∷◌, ◌++◌, length, length-append, ◌&&◌, ◌==◌, arith, if◌then◌else◌, Bool-cases, inl, inr, update,
}
use kernel_fuzzing.DeviceTree.{
  Bytes, read_b32, read_pair, returned, next, rounds, Cursor, drive_prop, drive_round,
  get_drive_info, virt_struct_block, virt_strings_block,
}
use kernel_fuzzing.DeviceTree.Reading.{
  be32, Holds, Holds-drop, gap, zeros, read_pair-sum, read_b32-cell, read_b32-be32, cell,
}
use kernel_fuzzing.DeviceTree.Tree.{
  Item, begins, property, ends, nop, item_bytes, tree_bytes, IsItem, IsTree, IsDrive, is_virtio,
  is_reg, is_int, with_reg, with_interrupts, drive_of,
}
use kernel_fuzzing.DeviceTree.Items.{
  read_b32-token, length-padded_name, length-padded, length-item_bytes, tree_bytes-pos, rounds-next,
  rounds-returned, is_reg_at-is_reg, is_int_at-is_int, is_virtio_at-is_virtio, begins-token,
  begins-name, begin_node-begins, property-token, property-length, property-offset, property-value,
  property-align,
}

-- The state of the loop: the cursor and the words of `result`.
abbrev State : Type 0
State = Cursor × (ℕ → ℕ)

-- What the code stores for a "reg" with four cells, and for an "interrupts" with three.
module _ (m : Bytes) (p : ℕ) (value : List ℕ) (h : Holds m p value) (result : ℕ → ℕ) where
  cell_at : (i : ℕ) → i + 4 ≤ length value → read_b32 m (p + i) ≡ cell value i
  cell_at i k = read_b32-cell m p value i h k

  first_cell : 4 ≤ length value → read_b32 m p ≡ cell value 0
  first_cell k = ap (read_b32 m) (omega arith) ∙ cell_at 0 k

  stored_reg :
      16 ≤ length value
      → update (update result 0 (read_pair m p)) 1 (read_pair m (p + 8)) ≡ with_reg value result
  stored_reg k =
      let fourth : read_b32 m (p + 8 + 4) ≡ cell value 12 =
        ap (read_b32 m) (omega arith) ∙ cell_at 12 (omega arith) in
      let address : read_pair m p ≡ cell value 0 * 2 ^ 32 + cell value 4 =
        omega (arith, read_pair-sum m p, first_cell (omega arith), cell_at 4 (omega arith)) in
      let size : read_pair m (p + 8) ≡ cell value 8 * 2 ^ 32 + cell value 12 =
        omega (arith, read_pair-sum m (p + 8), cell_at 8 (omega arith), fourth) in
      rw (address, size) refl

  stored_interrupts :
      12 ≤ length value
      → update
          (update (update result 2 (read_b32 m p)) 3 (read_b32 m (p + 4)))
          4
          (read_b32 m (p + 8))
        ≡ with_interrupts value result
  stored_interrupts k =
      rw (first_cell (omega arith), cell_at 4 (omega arith), cell_at 8 (omega arith)) refl

module _ (m : Bytes) (strings : ℕ) where
  -- One round of the loop at each item.
  module _ (p : ℕ) (inside : Bool) (result : ℕ → ℕ) (rest : List ℕ) (fuel : ℕ)
      (aligned : p % 4 ≡ 0) where
    round-begins :
        (name : List ℕ)
        → Holds m p (item_bytes (begins name) ++ rest)
        → IsItem m strings (begins name)
        → length name < fuel
        → drive_round m strings fuel ((p, inside), result)
          ≡ next ((p + length (item_bytes (begins name)), is_virtio name), result)
    unfolding drive_round
    round-begins name h ok enough =
        let e =
          is_virtio_at-is_virtio m (p + 4) name (zeros (gap (length name + 1)) ++ rest)
            (begins-name m p name rest aligned h) in
        rw (begins-token m p name rest aligned h, e)
          (begin_node-begins m p name rest aligned h fuel (λ q. ((q, is_virtio name), result)) ok
            enough)

    round-ends :
        Holds m p (item_bytes ends ++ rest)
        → drive_round m strings fuel ((p, inside), result) ≡ next ((p + 4, false), result)
    unfolding drive_round
    round-ends h = rw (read_b32-token m p 2 rest (omega arith) h).0 refl

    round-nop :
        Holds m p (item_bytes nop ++ rest)
        → drive_round m strings fuel ((p, inside), result) ≡ next ((p + 4, inside), result)
    unfolding drive_round
    round-nop h = rw (read_b32-token m p 4 rest (omega arith) h).0 refl

    round-last :
        Holds m p (tree_bytes [])
        → drive_round m strings fuel ((p, inside), result) ≡ returned result
    unfolding drive_round
    round-last h = rw (read_b32-be32 m p 9 (omega arith) h) refl

    module _ (offset : ℕ) (name value : List ℕ)
        (h : Holds m p (item_bytes (property offset name value) ++ rest))
        (ok : IsItem m strings (property offset name value)) where
      abbrev behind : State
      behind = ((p + length (item_bytes (property offset name value)), inside), result)

      stored : Holds m (p + 4 + 8) value
      stored = property-value m p strings offset name value rest aligned ok h

      abbrev after : ℕ
      after = p + length (item_bytes (property offset name value))

      round-property : drive_round m strings fuel ((p, inside), result) ≡ (
          if inside && is_reg name
          then (if length value == 0
              then next ((p + 4 + 8, inside), result)
              else returned (
                  update
                    (update result 0 (read_pair m (p + 4 + 8)))
                    1
                    (read_pair m (p + 4 + 8 + 8))))
          else if inside && is_int name
          then (if length value == 0
              then next ((p + 4 + 8, inside), result)
              else next (
                (after, inside),
                update
                    (update
                      (update result 2 (read_b32 m (p + 4 + 8)))
                      3
                      (read_b32 m (p + 4 + 8 + 4)))
                    4
                    (read_b32 m (p + 4 + 8 + 8)),
              ))
          else next ((after, inside), result))
      unfolding drive_round drive_prop
      round-property =
          rw
            (
              property-token m p strings offset name value rest aligned ok h,
              property-length m p strings offset name value rest aligned ok h,
              property-offset m p strings offset name value rest aligned ok h,
              property-align m p strings offset name value rest aligned ok h,
              is_reg_at-is_reg m (strings + offset) name [] ok.2 ok.3,
              is_int_at-is_int m (strings + offset) name [] ok.2 ok.3,
            )
            refl

      -- An empty property, whatever its name.
      round-empty :
          length value ≡ 0
          → drive_round m strings fuel ((p, inside), result) ≡ next ((after, inside), result)
      round-empty empty =
          let e : p + 4 + 8 ≡ after = omega (arith, length-padded value) in
          ground (arith, e, round-property)

      round-reg :
          inside && is_reg name ≡ true
          → 16 ≤ length value
          → drive_round m strings fuel ((p, inside), result) ≡ returned (with_reg value result)
      round-reg found long =
          ground (arith, round-property, stored_reg m (p + 4 + 8) value stored result long)

      round-int :
          inside && is_reg name ≡ false
          → inside && is_int name ≡ true
          → 12 ≤ length value
          → drive_round m strings fuel ((p, inside), result)
            ≡ next ((after, inside), with_interrupts value result)
      round-int other found long =
          ground (arith, round-property, stored_interrupts m (p + 4 + 8) value stored result long)

      round-other :
          inside && is_reg name ≡ false
          → inside && is_int name ≡ false
          → drive_round m strings fuel ((p, inside), result) ≡ next ((after, inside), result)
      round-other plain other = ground (arith, round-property)

  -- The loop over all items.
  rounds-drive :
      (xs : List Item) (fuel p : ℕ) (inside : Bool) (result : ℕ → ℕ)
      → p % 4 ≡ 0
      → Holds m p (tree_bytes xs)
      → IsTree m strings xs
      → IsDrive inside xs
      → length (tree_bytes xs) ≤ fuel
      → rounds (drive_round m strings) fuel ((p, inside), result) ≡ some (drive_of inside xs result)
  rounds-drive xs zero p inside result aligned h ok full enough = absurd (tree_bytes-pos xs enough)
  rounds-drive [] (suc fuel) p inside result aligned h ok full enough =
      rounds-returned (drive_round m strings) fuel ((p, inside), result) result
        (round-last p inside result [] fuel aligned h)
  rounds-drive (begins name ∷ xs) (suc fuel) p inside result aligned h ok full enough =
      let more = tree_bytes xs in
      let size = length-item_bytes (begins name) in
      let count = length-append (item_bytes (begins name)) more in
      let now =
        round-begins p inside result more fuel aligned name h ok.0
          (omega (arith, length-padded_name name, count)) in
      rounds-next (drive_round m strings) fuel ((p, inside), result) _ now
      ∙ rounds-drive xs fuel (p + length (item_bytes (begins name))) (is_virtio name) result
          (omega (arith, size)) (Holds-drop m p (item_bytes (begins name)) more h) ok.1 full
          (omega (arith, length-padded_name name, count))
  rounds-drive (property offset name value ∷ xs) (suc fuel) p inside result aligned h ok full
        enough =
      let item = property offset name value in
      let more = tree_bytes xs in
      let size = length-item_bytes item in
      let count = length-append (item_bytes item) more in
      let after = p + length (item_bytes item) in
      let later = λ (words : ℕ → ℕ).
        rounds-drive xs fuel after inside words (omega (arith, size))
          (Holds-drop m p (item_bytes item) more h) ok.1 full.1
          (omega (arith, length-padded value, count)) in
      let go = rounds-next (drive_round m strings) fuel ((p, inside), result) in
      elim (Bool-cases (length value == 0)) [
        | inl empty ↦
            go ((after, inside), result)
              (round-empty p inside result more fuel aligned offset name value h ok.0
                (ground arith))
            ∙ later result
            ∙ ground arith
        | inr filled ↦ elim (Bool-cases (inside && is_reg name)) [
          | inl found ↦
              rounds-returned (drive_round m strings) fuel ((p, inside), result)
                (with_reg value result)
                (round-reg p inside result more fuel aligned offset name value h ok.0 found
                  (ground (arith, full.0)))
              ∙ ground arith
          | inr other ↦ elim (Bool-cases (inside && is_int name)) [
            | inl found ↦
                go ((after, inside), with_interrupts value result)
                  (round-int p inside result more fuel aligned offset name value h ok.0 other found
                    (ground (arith, full.0)))
                ∙ later (with_interrupts value result)
                ∙ ground arith
            | inr neither ↦
                go ((after, inside), result)
                  (round-other p inside result more fuel aligned offset name value h ok.0 other
                    neither)
                ∙ later result
                ∙ ground arith
          ]
        ]
      ]
  rounds-drive (ends ∷ xs) (suc fuel) p inside result aligned h ok full enough =
      let more = tree_bytes xs in
      rounds-next (drive_round m strings) fuel ((p, inside), result) _
        (round-ends p inside result more fuel aligned h)
      ∙ rounds-drive xs fuel (p + 4) false result (omega arith) (Holds-drop m p (be32 2) more h)
          ok.1 full (omega arith)
  rounds-drive (nop ∷ xs) (suc fuel) p inside result aligned h ok full enough =
      let more = tree_bytes xs in
      rounds-next (drive_round m strings) fuel ((p, inside), result) _
        (round-nop p inside result more fuel aligned h)
      ∙ rounds-drive xs fuel (p + 4) inside result (omega arith) (Holds-drop m p (be32 4) more h)
          ok.1 full (omega arith)

-- On memory that holds a device tree at its kernel address, its header with the offsets of the two
-- blocks, full cells in the virtio nodes, and fuel for every byte of the items, get_drive_info ends
-- with the address and size of the first "reg" of a virtio node that is not empty, and the last
-- "interrupts" of virtio nodes before it; without a "reg" it leaves the first two words.
pub get_drive_info-drive_of :
    (m : Bytes) (xs : List Item) (fuel : ℕ) (result : ℕ → ℕ)
    → virt_struct_block m % 4 ≡ 0
    → Holds m (virt_struct_block m) (tree_bytes xs)
    → IsTree m (virt_strings_block m) xs
    → IsDrive false xs
    → length (tree_bytes xs) ≤ fuel
    → get_drive_info m fuel result ≡ some (drive_of false xs result)
unfolding get_drive_info
get_drive_info-drive_of m xs fuel result aligned h ok full enough =
    rounds-drive m (virt_strings_block m) xs fuel (virt_struct_block m) false result aligned h ok
      full enough
