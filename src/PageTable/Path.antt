-- ===== src/PageTable/Path.antt =====
-- A translation through the four levels of tables that kernel/core/mmu.c builds.
use kernel_fuzzing.Base.{ℕ, ◌+◌, ◌*◌, ◌/◌, ◌%◌, ◌^◌, ◌<◌, ◌≡◌, some, arith}
use kernel_fuzzing.PageTable.{Memory}
use kernel_fuzzing.PageTable.Walk.{walk, walk_l1, walk_l2, walk_l3}

-- The base of a table: a page of the physical memory.
abbrev pub IsTable : ℕ → Type 0
IsTable base = (base % 4096 ≡ 0) × (base < 2 ^ 48)

module _ (m : Memory) (va page : ℕ) (small : page < 2 ^ 36) where
  walk_l3_page :
      (l3 : ℕ)
      → m (l3 + 8 * (va / 2 ^ 12 % 512)) ≡ page * 4096 + 0x443
      → walk_l3 m l3 va ≡ some (page * 4096 + va % 4096)
  unfolding walk_l3
  walk_l3_page l3 e = ground arith

  walk_l2_page :
      (l2 l3 : ℕ)
      → IsTable l3
      → m (l2 + 8 * (va / 2 ^ 21 % 512)) ≡ l3 + 3
      → m (l3 + 8 * (va / 2 ^ 12 % 512)) ≡ page * 4096 + 0x443
      → walk_l2 m l2 va ≡ some (page * 4096 + va % 4096)
  unfolding walk_l2
  walk_l2_page l2 l3 t e f = ground (arith, walk_l3_page l3 f)

  walk_l1_page :
      (l1 l2 l3 : ℕ)
      → IsTable l2
      → IsTable l3
      → m (l1 + 8 * (va / 2 ^ 30 % 512)) ≡ l2 + 3
      → m (l2 + 8 * (va / 2 ^ 21 % 512)) ≡ l3 + 3
      → m (l3 + 8 * (va / 2 ^ 12 % 512)) ≡ page * 4096 + 0x443
      → walk_l1 m l1 va ≡ some (page * 4096 + va % 4096)
  unfolding walk_l1
  walk_l1_page l1 l2 l3 t t' d e f = ground (arith, walk_l2_page l2 l3 t' e f)

  -- Three table descriptors and a page descriptor with the access flag set translate an address.
  pub walk_page :
      (l0 l1 l2 l3 : ℕ)
      → IsTable l1
      → IsTable l2
      → IsTable l3
      → m (l0 + 8 * (va / 2 ^ 39 % 512)) ≡ l1 + 3
      → m (l1 + 8 * (va / 2 ^ 30 % 512)) ≡ l2 + 3
      → m (l2 + 8 * (va / 2 ^ 21 % 512)) ≡ l3 + 3
      → m (l3 + 8 * (va / 2 ^ 12 % 512)) ≡ page * 4096 + 0x443
      → walk m l0 va ≡ some (page * 4096 + va % 4096)
  unfolding walk
  walk_page l0 l1 l2 l3 t t' t'' c d e f = ground (arith, walk_l1_page l1 l2 l3 t' t'' d e f)
