-- ===== src/PageAlloc.antt =====
-- The physical page allocator of kernel/core/mmu.c: a bitmap with one bit for each 4 KiB page.
-- `mem->buffer` is a function from byte offsets to bytes. The caller's `res` array is a list, and a
-- write past its end, which C leaves undefined, is `none`.
pub mod Bitmap
pub mod Search
pub mod Mark
pub mod Allocate
pub mod Prefix
pub mod Free
use kernel_fuzzing.Base.{
  ℕ, zero, suc, ◌+◌, ◌*◌, ◌/◌, ◌%◌, ◌^◌, bit_and, bit_or, Bool, true, false, Option, none, some,
  List, update, ltb, leb, ◌==◌, if◌then◌else◌, length, get_elem?, set, ◌&&◌,
}

abbrev pub Buffer : Type 0
Buffer = ℕ → ℕ

pub record BitIndex : Type 0 where
  pub index : ℕ
  pub bit : ℕ
  pub valid : Bool

-- `(uint8_t)(1 << bit)`
unfoldable pub bit_mask : ℕ → ℕ
bit_mask bit = 2 ^ bit % 2 ^ 8

unfoldable pub check_free : Buffer → ℕ → ℕ → Bool
check_free buffer index bit = bit_and (buffer index) (bit_mask bit) == 0

-- The byte that is stored is `0 << bit`.
pub deallocate_mem : Buffer → ℕ → ℕ → Bool × Buffer
deallocate_mem buffer index bit =
    if check_free buffer index bit
    then (true, buffer)
    else (check_free (update buffer index 0) index bit, update buffer index 0)

abbrev pub no_page : BitIndex
no_page = record { index = 0; bit = 0; valid = false }

-- The loop of `find_free`, with fuel for its rounds.
pub find_free_from : ℕ → Buffer → ℕ → ℕ → BitIndex
find_free_from zero buffer index bit = no_page
find_free_from (suc fuel) buffer index bit =
    let wraps = bit + 1 == 8 in
    let rest =
      find_free_from fuel buffer (if wraps then index + 1 else index)
        (if wraps then 0 else bit + 1) in
    if leb index 16385
    then (if check_free buffer index bit
        then record { index = index; bit = bit; valid = true }
        else rest)
    else no_page

-- The bits that the loop reads before `index <= 16385` fails.
abbrev pub page_count : ℕ
page_count = 16386 * 8

pub find_free : Buffer → BitIndex
find_free buffer = find_free_from (page_count + 1) buffer 0 0

-- The variables of the loop of `set_bitmap`.
pub record Marking : Type 0 where
  pub buffer : Buffer
  pub res : List BitIndex
  pub total : ℕ

pub mark_page : Buffer → ℕ → ℕ → Buffer
mark_page buffer index bit = update buffer index (bit_or (buffer index) (bit_mask bit))

-- One round of the loop of `set_bitmap`.
pub set_bitmap_round : ℕ → Marking → Option Marking
set_bitmap_round i s =
    let val = find_free s.buffer in
    if val.valid
    then (if ltb i (length s.res)
        then some (record {
          buffer = mark_page s.buffer val.index val.bit;
          res = set s.res i val;
          total = s.total + 1;
        })
        else none)
    else some s

pub set_bitmap_loop : (left i : ℕ) → Marking → Option Marking
set_bitmap_loop zero i s = some s
set_bitmap_loop (suc left) i s = elim (set_bitmap_round i s) [
  | none ↦ none
  | some s' ↦ set_bitmap_loop left (i + 1) s'
]

-- The result, the bitmap and the array after the call.
pub set_bitmap : Buffer → ℕ → List BitIndex → Option (Bool × Buffer × List BitIndex)
set_bitmap buffer size res =
    elim (set_bitmap_loop size 0 (record { buffer = buffer; res = res; total = 0 })) [
      | none ↦ none
      | some s ↦ some (s.total == size, s.buffer, s.res)
    ]

-- The pages that `allocate_mem` asks for.
pub page_total : ℕ → ℕ
page_total size =
    if ltb size 4096
    then 1
    else (let val = size / 4096 in
        let rem = size % 4096 in if ltb 0 val && ltb 0 rem then val + 1 else val)

pub allocate_mem : Buffer → ℕ → List BitIndex → Option (ℕ × Buffer × List BitIndex)
allocate_mem buffer size res = elim (set_bitmap buffer (page_total size) res) [
  | none ↦ none
  | some (all_set, buffer', res') ↦ some (if all_set then page_total size else 0, buffer', res')
]

-- Reading past the end of `res` is `none` too.
pub free_pages_loop : (left i : ℕ) → List BitIndex → Buffer → Option Buffer
free_pages_loop zero i res buffer = some buffer
free_pages_loop (suc left) i res buffer = elim (get_elem? res i) [
  | none ↦ none
  | some b ↦ free_pages_loop left (i + 1) res (deallocate_mem buffer b.index b.bit).1
]

pub free_pages : Buffer → List BitIndex → ℕ → Option Buffer
free_pages buffer res size = free_pages_loop size 0 res buffer

abbrev pub phys_base_addr : ℕ
phys_base_addr = 0xC0000000

abbrev pub phys_base_page : ℕ
phys_base_page = phys_base_addr / 2 ^ 12

-- `uint64_t` arithmetic.
pub bitindex_to_phys : BitIndex → ℕ
bitindex_to_phys bi =
    let bitmap_page = (bi.index * 8 + bi.bit) % 2 ^ 64 in
    let phys_page = (phys_base_page + bitmap_page) % 2 ^ 64 in phys_page * 2 ^ 12 % 2 ^ 64

-- `start` is `__block_memory_start` of the linker script; 0 is NULL.
pub mem_block : (start size : ℕ) → ℕ
mem_block start size = if leb 524288 size then 0 else start

-- Where the bitmap stands: kernel/core/kmain.c.
pub init_allocation_map : (start total_physical_ram : ℕ) → ℕ
init_allocation_map start total_physical_ram = mem_block start (total_physical_ram / 4096 / 8)
