-- ===== src/PageTable/Walk.antt =====
-- The translation of the processor for 4 KiB pages and 48-bit addresses, as the ARM manual
-- describes it: what the tables that kernel/core/mmu.c writes are meant for.
use kernel_fuzzing.Base.{
  ℕ, ◌+◌, ◌*◌, ◌/◌, ◌%◌, ◌^◌, Bool, ◌&&◌, Option, none, some, ◌==◌, if◌then◌else◌,
}
use kernel_fuzzing.PageTable.{Memory}

-- A descriptor with low bits 11 is a table at levels 0 to 2 and a page at level 3; with low bits
-- 01 it is a block at levels 1 and 2. Bits 47 to 12 hold an address.
abbrev pub is_table : ℕ → Bool
is_table desc = desc % 4 == 3

abbrev is_block : ℕ → Bool
is_block desc = desc % 4 == 1

abbrev pub table_address : ℕ → ℕ
table_address desc = desc / 2 ^ 12 % 2 ^ 36 * 2 ^ 12

-- An access to a page or block with the access flag, bit 10, clear is a fault.
abbrev accessed : ℕ → Bool
accessed desc = desc / 2 ^ 10 % 2 == 1

unfoldable pub walk_l3 : Memory → (table va : ℕ) → Option ℕ
walk_l3 m table va =
    let desc = m (table + 8 * (va / 2 ^ 12 % 512)) in
    if is_table desc && accessed desc then some (table_address desc + va % 2 ^ 12) else none

unfoldable pub walk_l2 : Memory → (table va : ℕ) → Option ℕ
walk_l2 m table va =
    let desc = m (table + 8 * (va / 2 ^ 21 % 512)) in
    if is_table desc
    then walk_l3 m (table_address desc) va
    else if is_block desc && accessed desc
    then some (desc / 2 ^ 21 % 2 ^ 27 * 2 ^ 21 + va % 2 ^ 21)
    else none

unfoldable pub walk_l1 : Memory → (table va : ℕ) → Option ℕ
walk_l1 m table va =
    let desc = m (table + 8 * (va / 2 ^ 30 % 512)) in
    if is_table desc
    then walk_l2 m (table_address desc) va
    else if is_block desc && accessed desc
    then some (desc / 2 ^ 30 % 2 ^ 18 * 2 ^ 30 + va % 2 ^ 30)
    else none

-- From the table of level 0 at `table`; `none` is a fault.
unfoldable pub walk : Memory → (table va : ℕ) → Option ℕ
walk m table va =
    let desc = m (table + 8 * (va / 2 ^ 39 % 512)) in
    if is_table desc then walk_l1 m (table_address desc) va else none
