-- ===== src/PageTable/Process.antt =====
-- The code and the stack of one process together: `map_user_to_physical` after
-- `map_user_to_physical_test`, of kernel/core/mmu.c.
use kernel_fuzzing.Base.{
  ℕ, zero, suc, ◌+◌, ◌-◌, ◌*◌, ◌/◌, ◌%◌, ◌^◌, ◌≤◌, ◌<◌, ◌≡◌, ◌⊎◌, refl, ◌∙◌, some, arith,
}
use kernel_fuzzing.PageTable.{
  Memory, table_start, map_user_page, map_user_pages, map_user_tables, map_user_to_physical,
  map_user_to_physical_test, add64,
}
use kernel_fuzzing.PageTable.Walk.{walk}
use kernel_fuzzing.PageTable.User.{
  l3_table, map_user_page_lem, map_user_tables_lem, map_user_pages_entry, Leads, Leads-same,
  Leads-map_user_tables, Leads-map_user_page, Leads-map_user_pages, walk_of_Leads,
}

-- The tables of the process lead from `va` to a physical page.
abbrev pub Reaches : Memory → (id va page : ℕ) → Type 0
Reaches m id va page =
    Leads m id va × (m (l3_table id + 8 * (va / 2 ^ 12 % 512)) ≡ page * 4096 + 0x443)

pub walk-Reaches :
    (m : Memory) (id va page : ℕ)
    → page < 2 ^ 36
    → Reaches m id va page
    → walk m (table_start id) va ≡ some (page * 4096 + va % 4096)
walk-Reaches m id va page small h = walk_of_Leads m id va page small h.0 h.1

-- Only the tables of the process decide it.
pub Reaches-frame :
    (m m' : Memory) (id va page : ℕ)
    → ((w : ℕ) → table_start id ≤ w → w < table_start id + 0x31000 → m' w ≡ m w)
    → Reaches m id va page
    → Reaches m' id va page
Reaches-frame m m' id va page same h = (
  (
    same (table_start id + 8 * (va / 2 ^ 39 % 512)) (omega arith) (omega arith) ∙ h.0.0,
    same (table_start id + 0x10000 + 8 * (va / 2 ^ 30 % 512)) (omega arith) (omega arith) ∙ h.0.1,
    same (table_start id + 0x20000 + 8 * (va / 2 ^ 21 % 512)) (omega arith) (omega arith) ∙ h.0.2,
  ),
  same (l3_table id + 8 * (va / 2 ^ 12 % 512)) (omega arith) (omega arith) ∙ h.1,
)

-- The entries outside the ten pages stay.
map_user_pages_other :
    (left i : ℕ) (m : Memory) (id address w : ℕ)
    → address + 4096 * (i + left) < 2 ^ 64
    → address / 4096 % 512 + (i + left) ≤ 512
    → (w < l3_table id + 8 * (address / 4096 % 512 + i))
      ⊎ (l3_table id + 8 * (address / 4096 % 512 + (i + left)) ≤ w)
    → map_user_pages left i m id address w ≡ m w
unfolding map_user_pages
map_user_pages_other zero i m id address w h fits away = refl
map_user_pages_other (suc left) i m id address w h fits away =
    map_user_pages_other left (i + 1) (map_user_page m id (add64 address (4096 * i))) id address w
      (omega arith) (omega arith) (ground arith)
    ∙ ground (arith, map_user_page_lem m id (add64 address (4096 * i)) w)

module _ (m : Memory) (id a va : ℕ) where
  pub Reaches-map_user_to_physical :
      a + 40960 < 2 ^ 48
      → a / 4096 % 512 + 10 ≤ 512
      → a / 4096 * 4096 ≤ va
      → va < a / 4096 * 4096 + 40960
      → Reaches (map_user_to_physical m id a) id va (va / 4096)
  unfolding map_user_to_physical
  Reaches-map_user_to_physical h fits lo hi =
      let t = map_user_tables m id a in
      let j = va / 4096 - a / 4096 in
      let behind : va / 2 ^ 12 % 512 ≡ a / 4096 % 512 + j = omega arith in
      (
        Leads-map_user_pages 10 0 t id a va (Leads-same m id a va (omega arith)),
        ground
            (arith, map_user_pages_entry 10 0 j t id a (omega arith) (omega arith) (omega arith)),
      )

  -- A page mapped before stays, if its index of level 3 is none of the ten.
  pub Reaches-other :
      (page : ℕ)
      → a + 40960 < 2 ^ 48
      → a / 4096 % 512 + 10 ≤ 512
      → (va / 4096 % 512 < a / 4096 % 512) ⊎ (a / 4096 % 512 + 10 ≤ va / 4096 % 512)
      → Reaches m id va page
      → Reaches (map_user_to_physical m id a) id va page
  unfolding map_user_to_physical
  Reaches-other page h fits away r =
      let t = map_user_tables m id a in
      let w = l3_table id + 8 * (va / 2 ^ 12 % 512) in
      (
        Leads-map_user_pages 10 0 t id a va (Leads-map_user_tables m id a va r.0),
        map_user_pages_other 10 0 t id a w (omega arith) (omega arith) (ground arith)
            ∙ ground (arith, map_user_tables_lem m id a w, r.1),
      )

pub Reaches-map_user_to_physical_test :
    (m : Memory) (id b va : ℕ)
    → b < 2 ^ 48
    → va / 4096 ≡ b / 4096
    → Reaches (map_user_to_physical_test m id b) id va (b / 4096)
unfolding map_user_to_physical_test
Reaches-map_user_to_physical_test m id b va small same =
    let t = map_user_tables m id b in
    (
      Leads-map_user_page t id b va (omega arith) (Leads-same m id b va (omega arith)),
      ground (arith, map_user_page_lem t id b (l3_table id + 8 * (va / 2 ^ 12 % 512))),
    )
