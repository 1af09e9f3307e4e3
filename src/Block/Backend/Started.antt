-- ===== src/Block/Backend/Started.antt =====
-- What `init_virtio_backend` of kernel/drivers/block/block_driver.c leaves behind, on a well-formed
-- heap.
use kernel_fuzzing.Base.{
  ℕ, suc, ◌+◌, ◌≤◌, ◌<◌, ◌≡◌, ◌≢◌, ◌⊎◌, inl, inr, ℕ_discrete, refl, ◌∙◌, subst, true, false, some,
  List, [], ◌∷◌, ◌==◌, length, arith,
}
use kernel_fuzzing.Base.Bits.{bit_and_low, bit_and_comm}
use kernel_fuzzing.PageAlloc.{BitIndex}
use kernel_fuzzing.PageTable.{convert_to_physical, add_virtio_page, make_block_desc, l1_base_phys}
use kernel_fuzzing.Kmalloc.{Kernel, kmalloc}
use kernel_fuzzing.Kmalloc.Mapping.{IsBlock, heap_pa, heap_va}
use kernel_fuzzing.Kmalloc.Laws.{IsHeap}
use kernel_fuzzing.Kmalloc.Pages.{
  IsApart, IsHeap-Agree, Agree-add_virtio_page, virtio_entry, kmalloc_page_drivers,
  add_virtio_page_lem, add_virtio_page_entry,
}
use kernel_fuzzing.Virtio.{Device, Virtio, find_device, init_virtio_driver}
use kernel_fuzzing.Block.Backend.{
  Backend, cleared, allocate_structures, start_device, init_virtio_backend,
}

convert_heap : (n : ℕ) → n < 512 → convert_to_physical (heap_va n) ≡ heap_pa n
unfolding convert_to_physical
convert_heap n h =
    bit_and_comm 0x0000ffffffffffff (heap_va n) ∙ bit_and_low 48 (heap_va n) ∙ omega arith

-- The structure of a device at `device_reg`, with its rings on the pages from `n + 3` on.
abbrev pub rings_behind : (n device_reg : ℕ) → Virtio
rings_behind n device_reg = record {
  virtio_base = device_reg;
  virtual_virtq_desc = heap_va (n + 3);
  virtual_virtq_avail = heap_va (n + 4);
  virtual_virtq_used = heap_va (n + 5);
  physical_virtq_desc = heap_pa (n + 3);
  physical_virtq_avail = heap_pa (n + 4);
  physical_virtq_used = heap_pa (n + 5);
}

-- No device, or the first one started.
abbrev pub Outcome : (block n : ℕ) → Device → (before after : Backend) → Type 0
Outcome block n device before after =
    let (device_reg, h) = find_device device before.history in
    ((device_reg ≡ 0)
      × (after.virtio ≡ before.virtio)
      × (after.history ≡ h)
      × IsHeap block (n + 6) after.driver.heap)
    ⊎ ((device_reg ≢ 0)
        × (after.virtio ≡ rings_behind n device_reg)
        × (after.history ≡ init_virtio_driver device (rings_behind n device_reg) h)
        × IsHeap block (n + 7) after.driver.heap)

-- The driver after its start, with the device that the search found or without one, and the entry
-- of level 2 for the registers at `reg`.
pub record Started (block n reg : ℕ) (device : Device) (before after : Backend) : Type 0 where
  pub slots : after.driver.slots ≡ record { global_count = 0; used_request_index = cleared 12 }
  pub unlocked : after.lock ≡ 0
  pub quiet : after.driver.notified ≡ before.driver.notified
  pub addresses :
      after.global_virtio_address
      ≡ heap_va (n + 2) ∷ heap_va (n + 3) ∷ heap_va (n + 4) ∷ heap_va (n + 5) ∷ []
  pub outcome : Outcome block n device before after
  pub level1 :
      after.driver.heap.memory (l1_base_phys + 16) ≡ before.driver.heap.memory (l1_base_phys + 16)
  pub entry : after.driver.heap.memory virtio_entry ≡ make_block_desc reg

module _ (block : ℕ) (ok : IsBlock block) (apart : IsApart block) (stack : List BitIndex)
    (frame : length stack ≡ 64) (device : Device) (n : ℕ) where
  kmalloc_next :
      (m : ℕ) (k : Kernel)
      → IsHeap block m k
      → (size : ℕ) → size ≤ 4096
      → m < 512
      → (k' : Kernel) × (kmalloc block stack k size ≡ some (heap_va m, k'))
        × IsHeap block (suc m) k'
        × (k'.memory (l1_base_phys + 16) ≡ k.memory (l1_base_phys + 16))
        × (0 < m → k'.memory virtio_entry ≡ k.memory virtio_entry)
  kmalloc_next m k heap size small room =
      let (k', e, h, l1, entry) =
        kmalloc_page_drivers block ok apart m k heap stack size frame small room in
      (k', e, subst (λ t. IsHeap block t k') (omega arith) h, l1, entry)

  -- The search and the start, with the rings on the pages from `n + 3` on.
  start_device-Outcome :
      (b : Backend)
      → n + 7 ≤ 512
      → IsHeap block (n + 6) b.driver.heap
      → (b' : Backend) × (start_device block stack device
            (heap_va (n + 3))
            (heap_va (n + 4))
            (heap_va (n + 5))
            b
          ≡ some b')
        × (b'.driver.slots ≡ b.driver.slots)
        × (b'.lock ≡ b.lock)
        × (b'.driver.notified ≡ b.driver.notified)
        × (b'.global_virtio_address ≡ b.global_virtio_address)
        × Outcome block n device b b'
        × (b'.driver.heap.memory (l1_base_phys + 16) ≡ b.driver.heap.memory (l1_base_phys + 16))
        × (b'.driver.heap.memory virtio_entry ≡ b.driver.heap.memory virtio_entry)
  unfolding start_device
  start_device-Outcome b room heap =
      let found = (find_device device b.history).0 in
      let h = (find_device device b.history).1 in
      let desc = convert_heap (n + 3) (omega arith) in
      let avail = convert_heap (n + 4) (omega arith) in
      let used = convert_heap (n + 5) (omega arith) in
      elim (ℕ_discrete found 0) [
        | yes missing ↦
            let e : (found == 0) ≡ true = ground arith in
            (
              record b { history = h },
              rw (start_device, e) refl,
              refl,
              refl,
              refl,
              refl,
              inl (missing, refl, refl, heap),
              refl,
              refl,
            )
        | no there ↦
            let (k, e, heap', l1, entry) =
              kmalloc_next (n + 6) b.driver.heap heap 28 (omega arith) (omega arith) in
            let other : (found == 0) ≡ false = ground arith in
            let v = rings_behind n found in
            (
              record b {
                driver = record b.driver { heap = k };
                virtio = v;
                history = init_virtio_driver device v h;
              },
              rw (start_device, other, e, desc, avail, used) refl,
              refl,
              refl,
              refl,
              refl,
              inr (there, refl, refl, subst (λ t. IsHeap block t k) (omega arith) heap'),
              l1,
              entry (omega arith),
            )
      ]

  structures_lem :
      (k k1 k2 k3 k4 k5 k6 : Kernel) (a1 a2 a3 a4 a5 a6 : ℕ)
      → kmalloc block stack k 13 ≡ some (a1, k1)
      → kmalloc block stack k1 4 ≡ some (a2, k2)
      → kmalloc block stack k2 56 ≡ some (a3, k3)
      → kmalloc block stack k3 384 ≡ some (a4, k4)
      → kmalloc block stack k4 720 ≡ some (a5, k5)
      → kmalloc block stack k5 96 ≡ some (a6, k6)
      → allocate_structures block stack k ≡ some ((a3, a4, a5, a6), k6)
  unfolding allocate_structures
  structures_lem k k1 k2 k3 k4 k5 k6 a1 a2 a3 a4 a5 a6 e1 e2 e3 e4 e5 e6 =
      rw (allocate_structures, e1, e2, e3, e4, e5, e6) refl

  allocate_structures-IsHeap :
      (k : Kernel)
      → n + 6 ≤ 512
      → IsHeap block n k
      → (k' : Kernel) × (allocate_structures block stack k
          ≡ some ((heap_va (n + 2), heap_va (n + 3), heap_va (n + 4), heap_va (n + 5)), k'))
        × IsHeap block (n + 6) k'
        × (k'.memory (l1_base_phys + 16) ≡ k.memory (l1_base_phys + 16))
  allocate_structures-IsHeap k room heap =
      let (k1, e1, h1, l1, _) = kmalloc_next n k heap 13 (omega arith) (omega arith) in
      let (k2, e2, h2, l2, _) =
        kmalloc_next (n + 1) k1 (subst (λ t. IsHeap block t k1) (omega arith) h1) 4 (omega arith)
          (omega arith) in
      let (k3, e3, h3, l3, _) =
        kmalloc_next (n + 2) k2 (subst (λ t. IsHeap block t k2) (omega arith) h2) 56 (omega arith)
          (omega arith) in
      let (k4, e4, h4, l4, _) =
        kmalloc_next (n + 3) k3 (subst (λ t. IsHeap block t k3) (omega arith) h3) 384 (omega arith)
          (omega arith) in
      let (k5, e5, h5, l5, _) =
        kmalloc_next (n + 4) k4 (subst (λ t. IsHeap block t k4) (omega arith) h4) 720 (omega arith)
          (omega arith) in
      let (k6, e6, h6, l6, _) =
        kmalloc_next (n + 5) k5 (subst (λ t. IsHeap block t k5) (omega arith) h5) 96 (omega arith)
          (omega arith) in
      (
        k6,
        structures_lem k k1 k2 k3 k4 k5 k6 _ _ _ _ _ _ e1 e2 e3 e4 e5 e6,
        subst (λ t. IsHeap block t k6) (omega arith) h6,
        l6 ∙ l5 ∙ l4 ∙ l3 ∙ l2 ∙ l1,
      )

  -- On a heap with room for seven pages, init_virtio_backend frees all twelve slots and the lock,
  -- keeps the addresses of its structures, and either finds no device and stops there, or starts
  -- the first device found with its rings on pages of their own, by their physical addresses.
  pub init_virtio_backend-Started :
      (drive_info_register : ℕ) (b : Backend)
      → n + 7 ≤ 512
      → IsHeap block n b.driver.heap
      → (b' : Backend) × (init_virtio_backend block stack device drive_info_register b ≡ some b')
        × Started block n drive_info_register device b b'
  unfolding init_virtio_backend
  init_virtio_backend-Started drive_info_register b room heap =
      let (k6, e, h6, l1) = allocate_structures-IsHeap b.driver.heap (omega arith) heap in
      let heap' = record k6 { memory = add_virtio_page k6.memory drive_info_register } in
      let ready : Backend = record b {
        driver = record b.driver {
          slots = record { global_count = 0; used_request_index = cleared 12 };
          heap = heap';
        };
        lock = 0;
        global_virtio_address =
            heap_va (n + 2) ∷ heap_va (n + 3) ∷ heap_va (n + 4) ∷ heap_va (n + 5) ∷ [];
      } in
      let kept =
        IsHeap-Agree block (n + 6) k6 (add_virtio_page k6.memory drive_info_register)
          (Agree-add_virtio_page block apart k6.memory drive_info_register) h6 in
      let (b', e', slots, lock, quiet, addresses, outcome, level1, entry) =
        start_device-Outcome ready room kept in
      (
        b',
        rw (init_virtio_backend, e) e',
        record {
          slots = slots;
          unlocked = lock;
          quiet = quiet;
          addresses = addresses;
          outcome = outcome;
          level1 =
              level1
              ∙ add_virtio_page_lem block apart k6.memory drive_info_register (l1_base_phys + 16)
                  (λ at. omega (arith, at))
              ∙ l1;
          entry = entry ∙ add_virtio_page_entry block apart k6.memory drive_info_register;
        },
      )
