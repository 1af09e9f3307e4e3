-- ===== src/Kmalloc/Pages.antt =====
-- The heap of kernel/core/mmu.c page by page, and beside the other writers of page tables: the user
-- tables and the page of the virtio registers.
use kernel_fuzzing.Base.{
  ℕ, ◌+◌, ◌*◌, ◌<◌, ◌≤◌, ◌≡◌, ◌≢◌, ◌⊎◌, ◌∙◌, ap, some, List, length, arith, subst, update,
}
use kernel_fuzzing.Base.Bits.{bit_and_low}
use kernel_fuzzing.PageAlloc.{BitIndex, page_total}
use kernel_fuzzing.PageAlloc.Allocate.{page_total_lem}
use kernel_fuzzing.PageTable.{
  Memory, kernal_to_user_space, l0_base_phys, l1_base_phys, l2_base_phys, l2_index3_base_phys,
  map_user_to_physical, map_user_to_physical_test, add_virtio_page, make_block_desc,
  set_table_entry, virtio_reg_range, user_process_1_table_start,
}
use kernel_fuzzing.PageTable.Words.{calc_index_l2_lem}
use kernel_fuzzing.PageTable.User.{map_user_to_physical_frame, map_user_to_physical_test_frame}
use kernel_fuzzing.Kmalloc.{Kernel, kmalloc}
use kernel_fuzzing.Kmalloc.Mapping.{
  IsBlock, heap_pa, heap_va, map_pages_lem, first_tables_frame, first_tables_kernel,
}
use kernel_fuzzing.Kmalloc.Laws.{IsHeap, ready, kmalloc-IsHeap, kmalloc_tables}

-- One page of the heap.
pub kmalloc_page :
    (block : ℕ)
    → IsBlock block
    → (n : ℕ) (k : Kernel) → IsHeap block n k
    → (stack : List BitIndex) (size : ℕ) → length stack ≡ 64
    → size ≤ 4096
    → n < 512
    → (k' : Kernel) × (kmalloc block stack k size ≡ some (heap_va n, k')) × IsHeap block (n + 1) k'
kmalloc_page block ok n k heap stack size frame small room =
    let one : page_total size ≡ 1 = omega (arith, page_total_lem size) in
    let (k', e, heap') =
      kmalloc-IsHeap block ok n k heap stack size frame (omega (arith, one)) (omega (arith, one)) in
    (k', e, subst (λ t. IsHeap block (n + t) k') one heap')

pub physical_heap : (n : ℕ) → n < 512 → kernal_to_user_space (heap_va n) ≡ heap_pa n
unfolding kernal_to_user_space
physical_heap n h = bit_and_low 48 (heap_va n) ∙ omega arith

-- The block is apart from the user tables and from the table with the drivers' blocks.
pub record IsApart (block : ℕ) : Type 0 where
  pub apart_users :
      (block + 8192 ≤ user_process_1_table_start) ⊎ (user_process_1_table_start + 0x91000 ≤ block)
  pub apart_blocks : (block + 4096 ≤ l2_base_phys) ⊎ (l2_base_phys + 4096 ≤ block)

-- The two memories agree on the tables of the heap.
pub record Agree (block : ℕ) (m m' : Memory) : Type 0 where
  pub same_l0 : m l0_base_phys ≡ m' l0_base_phys
  pub same_l1 : m (l1_base_phys + 24) ≡ m' (l1_base_phys + 24)
  pub same_l2 : m l2_index3_base_phys ≡ m' l2_index3_base_phys
  pub same_l3 : (q : ℕ) → q < 512 → m (block + 8 * q) ≡ m' (block + 8 * q)

-- What does not touch the tables of the heap keeps it.
pub IsHeap-Agree :
    (block n : ℕ) (k : Kernel) (m : Memory)
    → Agree block m k.memory
    → IsHeap block n k
    → IsHeap block n (record k { memory = m })
IsHeap-Agree block n k m same heap = record {
  bytes = heap.bytes;
  pages = heap.pages;
  fits = heap.fits;
  fresh = heap.fresh;
  at_l0 = same.same_l0 ∙ heap.at_l0;
  at_l1 = λ e. same.same_l1 ∙ heap.at_l1 e;
  at_l2 = λ h. same.same_l2 ∙ heap.at_l2 h;
  at_l3 = λ q h. same.same_l3 q (omega (arith, heap.fits)) ∙ heap.at_l3 q h;
}

module _ (block : ℕ) (ok : IsApart block) (m : Memory) where
  pub Agree-map_user_to_physical :
      (id address : ℕ) → Agree block (map_user_to_physical m id address) m
  Agree-map_user_to_physical id address =
      let frame = map_user_to_physical_frame m id address in
      let away = ok.apart_users in
      record {
        same_l0 = frame l0_base_phys (ground arith);
        same_l1 = frame (l1_base_phys + 24) (ground arith);
        same_l2 = frame l2_index3_base_phys (ground arith);
        same_l3 = λ q h. frame (block + 8 * q) (ground arith);
      }

  pub Agree-map_user_to_physical_test :
      (id address : ℕ) → Agree block (map_user_to_physical_test m id address) m
  Agree-map_user_to_physical_test id address =
      let frame = map_user_to_physical_test_frame m id address in
      let away = ok.apart_users in
      record {
        same_l0 = frame l0_base_phys (ground arith);
        same_l1 = frame (l1_base_phys + 24) (ground arith);
        same_l2 = frame l2_index3_base_phys (ground arith);
        same_l3 = λ q h. frame (block + 8 * q) (ground arith);
      }

  pub add_virtio_page_lem : (reg w : ℕ) → w ≢ l2_base_phys + 8 * 50 → add_virtio_page m reg w ≡ m w
  unfolding add_virtio_page set_table_entry update
  add_virtio_page_lem reg w other = ground (arith, calc_index_l2_lem virtio_reg_range)

  pub add_virtio_page_entry :
      (reg : ℕ) → add_virtio_page m reg (l2_base_phys + 8 * 50) ≡ make_block_desc reg
  unfolding add_virtio_page set_table_entry update
  add_virtio_page_entry reg = ground (arith, calc_index_l2_lem virtio_reg_range)

  pub Agree-add_virtio_page : (reg : ℕ) → Agree block (add_virtio_page m reg) m
  Agree-add_virtio_page reg =
      let frame = add_virtio_page_lem reg in
      let away = ok.apart_blocks in
      record {
        same_l0 = frame l0_base_phys (λ e. omega arith);
        same_l1 = frame (l1_base_phys + 24) (λ e. omega arith);
        same_l2 = frame l2_index3_base_phys (λ e. omega arith);
        same_l3 = λ q h. frame (block + 8 * q) (λ e. ground arith);
      }

-- The words of the user tables.
abbrev pub IsUser : ℕ → Type 0
IsUser w = (user_process_1_table_start ≤ w) × (w < user_process_1_table_start + 0x91000)

-- One page of the heap, taken without a change to the user tables.
pub kmalloc_page_users :
    (block : ℕ)
    → IsBlock block
    → IsApart block
    → (n : ℕ) (k : Kernel) → IsHeap block n k
    → (stack : List BitIndex) (size : ℕ) → length stack ≡ 64
    → size ≤ 4096
    → n < 512
    → (k' : Kernel) × (kmalloc block stack k size ≡ some (heap_va n, k'))
      × IsHeap block (n + 1) k'
      × ((w : ℕ) → IsUser w → k'.memory w ≡ k.memory w)
kmalloc_page_users block ok apart n k heap stack size frame small room =
    let one : page_total size ≡ 1 = omega (arith, page_total_lem size) in
    let (k', e, heap', tables) =
      kmalloc_tables block ok n k heap stack size frame (omega (arith, one)) (omega (arith, one)) in
    let away = apart.apart_users in
    (
      k',
      e,
      subst (λ t. IsHeap block (n + t) k') one heap',
      λ w h.
          ap (λ (m : Memory). m w) tables
          ∙ ground (
            arith,
            one,
            map_pages_lem block ok (page_total size) 0 (ready block k) n w (omega (arith, one)),
            first_tables_frame block ok k.memory w,
          ),
    )

-- The entry of level 2 for the registers of the virtio devices.
abbrev pub virtio_entry : ℕ
virtio_entry = l2_base_phys + 8 * 50

-- One page of the heap, taken without a change to what leads to the virtio registers; their entry
-- stays once the heap has its tables.
pub kmalloc_page_drivers :
    (block : ℕ)
    → IsBlock block
    → IsApart block
    → (n : ℕ) (k : Kernel) → IsHeap block n k
    → (stack : List BitIndex) (size : ℕ) → length stack ≡ 64
    → size ≤ 4096
    → n < 512
    → (k' : Kernel) × (kmalloc block stack k size ≡ some (heap_va n, k'))
      × IsHeap block (n + 1) k'
      × (k'.memory (l1_base_phys + 16) ≡ k.memory (l1_base_phys + 16))
      × (0 < n → k'.memory virtio_entry ≡ k.memory virtio_entry)
kmalloc_page_drivers block ok apart n k heap stack size frame small room =
    let one : page_total size ≡ 1 = omega (arith, page_total_lem size) in
    let (k', e, heap', tables) =
      kmalloc_tables block ok n k heap stack size frame (omega (arith, one)) (omega (arith, one)) in
    let word = λ (w : ℕ).
      map_pages_lem block ok (page_total size) 0 (ready block k) n w (omega (arith, one)) in
    let away = apart.apart_blocks in
    let away_l1 = ok.apart_l1 in
    (
      k',
      e,
      subst (λ t. IsHeap block (n + t) k') one heap',
      ap (λ (m : Memory). m (l1_base_phys + 16)) tables
          ∙ ground (arith, one, word (l1_base_phys + 16), first_tables_kernel block ok k.memory),
      λ pos.
          ap (λ (m : Memory). m virtio_entry) tables
          ∙ ground (arith, one, word virtio_entry, heap.fresh),
    )
