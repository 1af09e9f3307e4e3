-- ===== src/PageTable/User.antt =====
-- The user tables of kernel/core/mmu.c: `map_user_to_physical` and `map_user_to_physical_test`.
use kernel_fuzzing.Base.{
  ℕ, zero, suc, ◌+◌, ◌-◌, ◌*◌, ◌/◌, ◌%◌, ◌^◌, ◌≤◌, ◌<◌, ◌≡◌, ◌⊎◌, refl, ap, ◌∙◌, some, arith,
  update, ◌==◌, leb, ltb, ◌&&◌, if◌then◌else◌,
}
use kernel_fuzzing.PageTable.{
  Memory, table_start, set_table_entry, map_user_page, map_user_pages, map_user_tables,
  map_user_to_physical, map_user_to_physical_test, add64,
}
use kernel_fuzzing.PageTable.Words.{
  calc_index_l0_lem, calc_index_l1_lem, calc_index_l2_lem, calc_index_l3_lem, make_table_desc_lem,
  make_l3_block_desc_lem,
}
use kernel_fuzzing.PageTable.Walk.{walk}
use kernel_fuzzing.PageTable.Path.{walk_page}

abbrev pub l3_table : ℕ → ℕ
l3_table id = table_start id + 0x30000

pub map_user_page_lem :
    (m : Memory) (id address w : ℕ)
    → address < 2 ^ 64
    → map_user_page m id address w ≡ (
        if w == l3_table id + 8 * (address / 4096 % 512)
        then address / 4096 * 4096 + 0x443
        else m w)
unfolding map_user_page set_table_entry update
map_user_page_lem m id address w h =
    ground (arith, calc_index_l3_lem address, make_l3_block_desc_lem address h)

pub map_user_tables_lem :
    (m : Memory) (id address w : ℕ)
    → map_user_tables m id address w ≡ (
        if w == table_start id + 0x20000 + 8 * (address / 2 ^ 21 % 512)
        then table_start id + 0x30003
        else if w == table_start id + 0x10000 + 8 * (address / 2 ^ 30 % 512)
        then table_start id + 0x20003
        else if w == table_start id + 8 * (address / 2 ^ 39 % 512)
        then table_start id + 0x10003
        else m w)
unfolding map_user_tables set_table_entry update
map_user_tables_lem m id address w = ground (
  arith,
  calc_index_l0_lem address,
  calc_index_l1_lem address,
  calc_index_l2_lem address,
  make_table_desc_lem (table_start id + 0x10000),
  make_table_desc_lem (table_start id + 0x20000),
  make_table_desc_lem (table_start id + 0x30000),
)

pub map_user_pages_frame :
    (left i : ℕ) (m : Memory) (id address w : ℕ)
    → (w < l3_table id) ⊎ (l3_table id + 4096 ≤ w)
    → map_user_pages left i m id address w ≡ m w
unfolding map_user_pages
map_user_pages_frame zero i m id address w h = refl
map_user_pages_frame (suc left) i m id address w h =
    map_user_pages_frame left (i + 1) (map_user_page m id (add64 address (4096 * i))) id address w h
    ∙ ground (arith, map_user_page_lem m id (add64 address (4096 * i)) w)

-- Entry `j` behind that of `address`, with the loop about to write entries `i` to `i + left - 1`.
pub map_user_pages_entry :
    (left i j : ℕ) (m : Memory) (id address : ℕ)
    → address + 4096 * (i + left) < 2 ^ 64
    → address / 4096 % 512 + (i + left) ≤ 512
    → address / 4096 % 512 + j < 512
    → map_user_pages left i m id address (l3_table id + 8 * (address / 4096 % 512 + j)) ≡ (
        if leb i j && ltb j (i + left)
        then (address / 4096 + j) * 4096 + 0x443
        else m (l3_table id + 8 * (address / 4096 % 512 + j)))
unfolding map_user_pages
map_user_pages_entry zero i j m id address h fits small = ground arith
map_user_pages_entry (suc left) i j m id address h fits small =
    map_user_pages_entry left (i + 1) j (map_user_page m id (add64 address (4096 * i))) id address
      (omega arith) (omega arith) small
    ∙ ground (
      arith,
      map_user_page_lem m id (add64 address (4096 * i))
          (l3_table id + 8 * (address / 4096 % 512 + j)),
    )

-- The tables of level 0, 1 and 2 of the process lead from `va` to its table of level 3.
abbrev pub Leads : Memory → (id va : ℕ) → Type 0
Leads m id va =
    (m (table_start id + 8 * (va / 2 ^ 39 % 512)) ≡ table_start id + 0x10003)
    × (m (table_start id + 0x10000 + 8 * (va / 2 ^ 30 % 512)) ≡ table_start id + 0x20003)
    × (m (table_start id + 0x20000 + 8 * (va / 2 ^ 21 % 512)) ≡ table_start id + 0x30003)

pub Leads-same :
    (m : Memory) (id a va : ℕ) → va / 2 ^ 21 ≡ a / 2 ^ 21 → Leads (map_user_tables m id a) id va
Leads-same m id a va same = (
  ground (arith, map_user_tables_lem m id a (table_start id + 8 * (va / 2 ^ 39 % 512))),
  ground (arith, map_user_tables_lem m id a (table_start id + 0x10000 + 8 * (va / 2 ^ 30 % 512))),
  ground (arith, map_user_tables_lem m id a (table_start id + 0x20000 + 8 * (va / 2 ^ 21 % 512))),
)

module _ (m : Memory) (id b va : ℕ) where
  pub Leads-map_user_tables : Leads m id va → Leads (map_user_tables m id b) id va
  Leads-map_user_tables h = (
    ground (arith, map_user_tables_lem m id b (table_start id + 8 * (va / 2 ^ 39 % 512))),
    ground (arith, map_user_tables_lem m id b (table_start id + 0x10000 + 8 * (va / 2 ^ 30 % 512))),
    ground (arith, map_user_tables_lem m id b (table_start id + 0x20000 + 8 * (va / 2 ^ 21 % 512))),
  )

  pub Leads-map_user_page : b < 2 ^ 64 → Leads m id va → Leads (map_user_page m id b) id va
  Leads-map_user_page small h = (
    ground (arith, map_user_page_lem m id b (table_start id + 8 * (va / 2 ^ 39 % 512))),
    ground (arith, map_user_page_lem m id b (table_start id + 0x10000 + 8 * (va / 2 ^ 30 % 512))),
    ground (arith, map_user_page_lem m id b (table_start id + 0x20000 + 8 * (va / 2 ^ 21 % 512))),
  )

pub Leads-map_user_pages :
    (left i : ℕ) (m : Memory) (id a va : ℕ)
    → Leads m id va
    → Leads (map_user_pages left i m id a) id va
unfolding map_user_pages
Leads-map_user_pages zero i m id a va h = h
Leads-map_user_pages (suc left) i m id a va h =
    Leads-map_user_pages left (i + 1) (map_user_page m id (add64 a (4096 * i))) id a va
      (Leads-map_user_page m id (add64 a (4096 * i)) va (omega arith) h)

pub walk_of_Leads :
    (m : Memory) (id va page : ℕ)
    → page < 2 ^ 36
    → Leads m id va
    → m (l3_table id + 8 * (va / 2 ^ 12 % 512)) ≡ page * 4096 + 0x443
    → walk m (table_start id) va ≡ some (page * 4096 + va % 4096)
walk_of_Leads m id va page small led e =
    walk_page m va page small (table_start id) (table_start id + 0x10000) (table_start id + 0x20000)
      (l3_table id) (ground arith) (ground arith) (ground arith) (led.0 ∙ omega arith)
      (led.1 ∙ omega arith) (led.2 ∙ omega arith) e

-- `map_user_to_physical` maps the page of `address` and the nine pages behind it to themselves in
-- the tables of the process, provided that the ten pages stand in one table of level 3: there
-- every address of them translates to the same physical address.
pub walk-map_user_to_physical :
    (m : Memory) (id address va : ℕ)
    → address + 40960 < 2 ^ 48
    → address / 4096 % 512 + 10 ≤ 512
    → address / 4096 * 4096 ≤ va
    → va < address / 4096 * 4096 + 40960
    → walk (map_user_to_physical m id address) (table_start id) va ≡ some va
unfolding map_user_to_physical
walk-map_user_to_physical m id address va h fits lo hi =
    let t = map_user_tables m id address in
    let j = va / 4096 - address / 4096 in
    let behind : va / 2 ^ 12 % 512 ≡ address / 4096 % 512 + j = omega arith in
    walk_of_Leads _ id va (va / 4096) (omega arith)
      (Leads-map_user_pages 10 0 t id address va (Leads-same m id address va (omega arith)))
      (ground
        (arith, map_user_pages_entry 10 0 j t id address (omega arith) (omega arith) (omega arith)))
    ∙ ap some (omega arith)

-- `map_user_to_physical` writes only inside the four tables of the process, so the tables of the
-- other process stay as they are.
pub map_user_to_physical_frame :
    (m : Memory) (id address w : ℕ)
    → (w < table_start id) ⊎ (table_start id + 0x31000 ≤ w)
    → map_user_to_physical m id address w ≡ m w
unfolding map_user_to_physical
map_user_to_physical_frame m id address w h =
    map_user_pages_frame 10 0 (map_user_tables m id address) id address w (omega arith)
    ∙ ground (arith, map_user_tables_lem m id address w)

pub map_user_to_physical_test_frame :
    (m : Memory) (id address w : ℕ)
    → (w < table_start id) ⊎ (table_start id + 0x31000 ≤ w)
    → map_user_to_physical_test m id address w ≡ m w
unfolding map_user_to_physical_test map_user_page set_table_entry update
map_user_to_physical_test_frame m id address w h =
    ground (arith, calc_index_l3_lem address, map_user_tables_lem m id address w)

-- Every address of a process with the level 3 index of `b` translates to the page of `b`, once the
-- tables above level 3 lead to it: the process has one table of level 3 for its whole space. So
-- mapping `b` takes away a page that `map_user_to_physical` mapped before.
pub map_user_to_physical_alias :
    (m : Memory) (id a b va : ℕ)
    → a + 40960 < 2 ^ 48
    → b < 2 ^ 48
    → a / 4096 % 512 + 10 ≤ 512
    → a / 4096 * 4096 ≤ va
    → va < a / 4096 * 4096 + 40960
    → va / 4096 % 512 ≡ b / 4096 % 512
    → walk (map_user_to_physical_test (map_user_to_physical m id a) id b) (table_start id) va
      ≡ some (b / 4096 * 4096 + va % 4096)
unfolding map_user_to_physical_test map_user_to_physical
map_user_to_physical_alias m id a b va ha hb fits lo hi meet =
    let u = map_user_to_physical m id a in
    let led = Leads-map_user_page (map_user_tables u id b) id b va (omega arith) (
      Leads-map_user_tables u id b va (
        Leads-map_user_pages 10 0 (map_user_tables m id a) id a va
          (Leads-same m id a va (omega arith)))) in
    walk_of_Leads _ id va (b / 4096) (omega arith) led (
      map_user_page_lem (map_user_tables u id b) id b (l3_table id + 8 * (va / 2 ^ 12 % 512))
        (omega arith)
      ∙ ground arith)
