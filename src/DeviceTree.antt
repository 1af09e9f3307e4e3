-- ===== src/DeviceTree.antt =====
-- The reader of the flattened device tree, kernel/core/dtd.c: memory byte by byte, the loop over
-- the tokens for `get_total_ram` and for `get_drive_info`. Pointers are addresses without an end
-- (a pointer that overflows is no program), the messages are left out.
pub mod Reading
pub mod Tree
pub mod Items
pub mod TotalRam
pub mod DriveInfo
use kernel_fuzzing.Base.{
  ℕ, zero, suc, ◌+◌, ◌*◌, ◌/◌, ◌%◌, ◌^◌, bit_and, bit_or, Bool, false, Option, none, some, ◌==◌,
  ◌&&◌, if◌then◌else◌, update,
}

-- The byte at each address.
abbrev pub Bytes : Type 0
Bytes = ℕ → ℕ

unfoldable pub byte_at : Bytes → ℕ → ℕ
byte_at m p = m p % 2 ^ 8

unfoldable pub read_b32 : Bytes → ℕ → ℕ
read_b32 m p =
    bit_or
      (bit_or (bit_or (byte_at m p * 2 ^ 24 % 2 ^ 32) (byte_at m (p + 1) * 2 ^ 16))
        (byte_at m (p + 2) * 2 ^ 8))
      (byte_at m (p + 3))

-- A load of the little-endian processor, and the exchange of its bytes.
unfoldable pub load_u32 : Bytes → ℕ → ℕ
load_u32 m p =
    byte_at m p
    + byte_at m (p + 1) * 2 ^ 8
    + byte_at m (p + 2) * 2 ^ 16
    + byte_at m (p + 3) * 2 ^ 24

unfoldable pub bswap32 : ℕ → ℕ
bswap32 x =
    x % 2 ^ 8 * 2 ^ 24
    + x / 2 ^ 8 % 2 ^ 8 * 2 ^ 16
    + x / 2 ^ 16 % 2 ^ 8 * 2 ^ 8
    + x / 2 ^ 24 % 2 ^ 8

-- `while (*p != '\0') p++`
unfoldable pub skip_string : Bytes → (fuel p : ℕ) → Option ℕ
skip_string m zero p = none
skip_string m (suc fuel) p =
    let rest = skip_string m fuel (p + 1) in if byte_at m p == 0 then some p else rest

-- `while ((uint64_t)p & 3) p++`, which ends after three rounds at most.
unfoldable pub align_from : (rounds p : ℕ) → ℕ
align_from zero p = p
align_from (suc rounds) p =
    let rest = align_from rounds (p + 1) in if bit_and p 3 == 0 then p else rest

unfoldable pub align : ℕ → ℕ
align p = align_from 3 p

-- What a round of the loop over the tokens does: return, go on, or wait for the end of a name.
pub data Round {ℓ ℓ'} (S : Type ℓ) (B : Type ℓ') : Type (ℓ ⊔ ℓ') where
  returned : B → Round S B
  next : S → Round S B
  endless : Round S B

unfoldable pub rounds {ℓ ℓ'} :
    {S : Type ℓ} {B : Type ℓ'} → (ℕ → S → Round S B) → (fuel : ℕ) → S → Option B
rounds round zero s = none
rounds round (suc fuel) s = elim (round fuel s) [
  | returned b ↦ some b
  | next t ↦ rounds round fuel t
  | endless ↦ none
]

abbrev pub dtb_base : ℕ
dtb_base = 0x40000000

abbrev pub virt_dtb_base : ℕ
virt_dtb_base = 0xffff000085400000

-- The sum in `get_total_ram` is one of 32-bit numbers.
unfoldable pub struct_block : Bytes → ℕ
struct_block m = (dtb_base + bswap32 (load_u32 m (dtb_base + 8))) % 2 ^ 32

unfoldable pub strings_block : Bytes → ℕ
strings_block m = (dtb_base + bswap32 (load_u32 m (dtb_base + 12))) % 2 ^ 32

unfoldable pub virt_struct_block : Bytes → ℕ
virt_struct_block m = virt_dtb_base + bswap32 (load_u32 m (virt_dtb_base + 8))

unfoldable pub virt_strings_block : Bytes → ℕ
virt_strings_block m = virt_dtb_base + bswap32 (load_u32 m (virt_dtb_base + 12))

-- Where a loop stands: `p`, and whether it is inside the node it looks for.
abbrev pub Cursor : Type 0
Cursor = ℕ × Bool

-- Behind the name of a node: where the next token stands.
unfoldable pub after_name : {S B : Type 0} → (ℕ → S) → Option ℕ → Round S B
after_name go none = endless
after_name go (some q) = next (go (align (q + 1)))

-- Two 32-bit cells as one number.
unfoldable pub read_pair : Bytes → ℕ → ℕ
read_pair m p = bit_or (read_b32 m p * 2 ^ 32) (read_b32 m (p + 4))

module _ (m : Bytes) where
  -- `name[0] == 'm' && name[1] == 'e' && name[5] == 'y'`
  unfoldable pub is_memory_at : ℕ → Bool
  is_memory_at name =
      byte_at m name == 109 && (byte_at m (name + 1) == 101 && byte_at m (name + 5) == 121)

  -- `string[0] == 'r' && string[2] == 'g'`
  unfoldable pub is_reg_at : ℕ → Bool
  is_reg_at string = byte_at m string == 114 && byte_at m (string + 2) == 103

  -- The sizes of `left` entries of 16 bytes.
  unfoldable pub sum_sizes : (left p total : ℕ) → ℕ
  sum_sizes zero p total = total
  sum_sizes (suc left) p total = sum_sizes left (p + 16) ((total + read_pair m (p + 8)) % 2 ^ 64)

  -- A name, for both functions.
  unfoldable pub begin_node : {S B : Type 0} (fuel p : ℕ) → (ℕ → S) → Round S B
  begin_node fuel p go = after_name go (skip_string m fuel p)

  -- TOKEN_PROP in `get_total_ram`.
  unfoldable pub total_ram_prop : (strings p : ℕ) (inside : Bool) → Round Cursor ℕ
  total_ram_prop strings p inside =
      let len = read_b32 m p in
      let string = strings + read_b32 m (p + 4) in
      if inside && is_reg_at string
      then (if len == 0 then returned 0 else returned (sum_sizes (len / 16) (p + 8) 0))
      else next (align (p + 8 + len), inside)

  unfoldable pub total_ram_round : (strings fuel : ℕ) → Cursor → Round Cursor ℕ
  total_ram_round strings fuel (p, inside) =
      let token = read_b32 m p in
      if token == 1
      then begin_node fuel (p + 4) (λ q. (q, is_memory_at (p + 4)))
      else if token == 3
      then total_ram_prop strings (p + 4) inside
      else if token == 2
      then next (p + 4, false)
      else if token == 4
      then next (p + 4, inside)
      else returned 0

  unfoldable pub get_total_ram : (fuel : ℕ) → Option ℕ
  get_total_ram fuel = rounds (total_ram_round (strings_block m)) fuel (struct_block m, false)

  -- `name[0] == 'v' && name[1] == 'i' && name[2] == 'r'`
  unfoldable pub is_virtio_at : ℕ → Bool
  is_virtio_at name =
      byte_at m name == 118 && (byte_at m (name + 1) == 105 && byte_at m (name + 2) == 114)

  -- `string[0] == 'i' && string[1] == 'n' && string[2] == 't'`
  unfoldable pub is_int_at : ℕ → Bool
  is_int_at string =
      byte_at m string == 105 && (byte_at m (string + 1) == 110 && byte_at m (string + 2) == 116)

  -- TOKEN_PROP in `get_drive_info`, with the words of `result`.
  unfoldable pub drive_prop :
      (strings p : ℕ) (inside : Bool) → (ℕ → ℕ) → Round (Cursor × (ℕ → ℕ)) (ℕ → ℕ)
  drive_prop strings p inside result =
      let len = read_b32 m p in
      let string = strings + read_b32 m (p + 4) in
      let p = p + 8 in
      if inside && is_reg_at string
      then (if len == 0
          then next ((p, inside), result)
          else returned (update (update result 0 (read_pair m p)) 1 (read_pair m (p + 8))))
      else if inside && is_int_at string
      then (if len == 0
          then next ((p, inside), result)
          else next (
            (align (p + len), inside),
            update (update (update result 2 (read_b32 m p)) 3 (read_b32 m (p + 4))) 4
                (read_b32 m (p + 8)),
          ))
      else next ((align (p + len), inside), result)

  unfoldable pub drive_round :
      (strings fuel : ℕ) → Cursor × (ℕ → ℕ) → Round (Cursor × (ℕ → ℕ)) (ℕ → ℕ)
  drive_round strings fuel ((p, inside), result) =
      let token = read_b32 m p in
      if token == 1
      then begin_node fuel (p + 4) (λ q. ((q, is_virtio_at (p + 4)), result))
      else if token == 3
      then drive_prop strings (p + 4) inside result
      else if token == 2
      then next ((p + 4, false), result)
      else if token == 4
      then next ((p + 4, inside), result)
      else if token == 9
      then returned result
      else next ((p + 8, inside), result)

  unfoldable pub get_drive_info : (fuel : ℕ) → (result : ℕ → ℕ) → Option (ℕ → ℕ)
  get_drive_info fuel result =
      rounds (drive_round (virt_strings_block m)) fuel ((virt_struct_block m, false), result)
