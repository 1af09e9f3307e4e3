-- ===== src/PageTable/Words.antt =====
-- The indices and descriptors of kernel/core/mmu.c as arithmetic.
use kernel_fuzzing.Base.{ℕ, ◌+◌, ◌*◌, ◌/◌, ◌%◌, ◌^◌, ◌<◌, ◌≡◌, arith}
use kernel_fuzzing.Base.Bits.{bit_and_page, bit_and_low, bit_or_join}
use kernel_fuzzing.PageTable.{
  calc_index_l0, calc_index_l1, calc_index_l2, calc_index_l3, make_table_desc, make_l3_block_desc,
  make_block_desc,
}

pub calc_index_l0_lem : (va : ℕ) → calc_index_l0 va ≡ va / 2 ^ 39 % 512
unfolding calc_index_l0
calc_index_l0_lem va = bit_and_low 9 (va / 2 ^ 39)

pub calc_index_l1_lem : (va : ℕ) → calc_index_l1 va ≡ va / 2 ^ 30 % 512
unfolding calc_index_l1
calc_index_l1_lem va = bit_and_low 9 (va / 2 ^ 30)

pub calc_index_l2_lem : (va : ℕ) → calc_index_l2 va ≡ va / 2 ^ 21 % 512
unfolding calc_index_l2
calc_index_l2_lem va = bit_and_low 9 (va / 2 ^ 21)

pub calc_index_l3_lem : (va : ℕ) → calc_index_l3 va ≡ va / 2 ^ 12 % 512
unfolding calc_index_l3
calc_index_l3_lem va = bit_and_low 9 (va / 2 ^ 12)

-- A descriptor is the address of the page, its low twelve bits replaced by the attributes.
pub make_table_desc_lem : (base : ℕ) → base < 2 ^ 64 → make_table_desc base ≡ base / 4096 * 4096 + 3
unfolding make_table_desc
make_table_desc_lem base h =
    ground (arith, bit_and_page base h, bit_or_join 12 (base / 4096) 3 (omega arith))

pub make_l3_block_desc_lem :
    (base : ℕ) → base < 2 ^ 64 → make_l3_block_desc base ≡ base / 4096 * 4096 + 0x443
unfolding make_l3_block_desc
make_l3_block_desc_lem base h =
    ground (arith, bit_and_page base h, bit_or_join 12 (base / 4096) 0x443 (omega arith))

pub make_block_desc_lem :
    (base : ℕ) → base < 2 ^ 64 → make_block_desc base ≡ base / 4096 * 4096 + 0x401
unfolding make_block_desc
make_block_desc_lem base h =
    ground (arith, bit_and_page base h, bit_or_join 12 (base / 4096) 0x401 (omega arith))
